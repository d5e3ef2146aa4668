-- ===== src/Frontend/Dashboard/Versions.antt =====
-- The firmware distribution of the dashboard counts every report once.
use flownexus.Prelude.{ℕ, ◌+◌, Bool, List, [], ◌∷◌, is_some}
use flownexus.Table.{Rows}
use flownexus.Models.Rows.{Resource}
use flownexus.Models.Db.{Db}
use flownexus.Frontend.Dashboard.{Version}

abbrev pub total : List (Version × ℕ) → ℕ
total [] = 0
total ((v, n) ∷ rest) = n + total rest

-- The report names a version.
abbrev pub names_version : ℕ → Resource → Bool
names_version _ r = is_some r.str_value
