-- ===== src/System/History.antt =====
-- What devices have reported is kept, in whatever order the server's parts run.
use flownexus.Prelude.{ℕ, ◌≡◌, ◌++◌}
use flownexus.Table.{Rows}
use flownexus.Models.Db.{Db}
use flownexus.Models.Keeps.{Keeps}
use flownexus.Ingest.Closed.{Closed}
use flownexus.System.{System}

-- Rows were added at the end, if any.
abbrev pub Grown : {A : Type 0} → Rows ℕ A → Rows ℕ A → Type 0
Grown {A} before after = (new : Rows ℕ A) × (after ≡ before ++ new)

-- Readings, events and their links, users and sites were added at most, and the resource types are
-- the same.
abbrev pub History : Db → Db → Type 0
History before after =
    Grown before.resources.rows after.resources.rows
    × Grown before.events.rows after.events.rows
    × Grown before.event_resources.rows after.event_resources.rows
    × Grown before.users.rows after.users.rows
    × Grown before.sites.rows after.sites.rows
    × (after.resource_types ≡ before.resource_types)
