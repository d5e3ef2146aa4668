-- ===== src/Frontend/Page/Switch.antt =====
-- `switch_site` and the middleware: a switch takes effect on the next request.
use flownexus.Prelude.{ℕ, ◌≡◌, true, Option, some, nat_key}
use flownexus.Table.Search.{Elem}
use flownexus.Models.Rows.{User, SiteMembership}
use flownexus.Models.Db.{Db}
use flownexus.Models.Exec.{ok}
use flownexus.Access.Middleware.{SiteKey, id, is_member, with_site, site_context}

-- The user is a member of the active site: the session names it, and the next request stands in it
-- with the permissions of that membership.
abbrev pub Switched : Db → ℕ → User → ℕ → Option SiteKey → Type 0
Switched db u user s session =
    (k : ℕ) × (m : SiteMembership) × Elem {A = ℕ × SiteMembership} (k, m) db.memberships.rows
    × (is_member db u k m ≡ true)
    × (m.site ≡ s)
    × (session ≡ some (id s))
    × (site_context db u user session ≡ ok (with_site db u user s (some m), session))
