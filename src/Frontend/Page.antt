-- ===== src/Frontend/Page.antt =====
-- Answers of the pages, and the view `switch_site` of server/django/frontend/views.py.
pub mod Switch
use flownexus.Prelude.{
  ℕ, String, Bool, true, false, ◌&&◌, Option, none, some, List, length, ◌==◌, nat_key,
  if◌then◌else◌, ltb,
}
use flownexus.Table.{Rows, first}
use flownexus.Models.Rows.{User, Site, SiteMembership}
use flownexus.Models.Db.{Db}
use flownexus.Access.Middleware.{SiteKey, all, unassigned, id, Context, is_site, is_member_of}

-- `HttpResponseForbidden`, `redirect` and `render`.
pub data Page : Type 0 where
  forbidden redirected rendered : Page

abbrev pub admin_choice : Option SiteKey → Option (ℕ × Site) → Option SiteKey
admin_choice session none = session
admin_choice session (some (s, _)) = some (id s)

abbrev pub member_choice : Option SiteKey → Option (ℕ × SiteMembership) → Option SiteKey
member_choice session none = session
member_choice session (some (_, m)) = some (id m.site)

-- `switch_site`: the session after it. `none` is a text in the URL that is no number, which the
-- `except ValueError` passes over.
unfoldable pub switch_site :
    Db → ℕ → User → Context → Option SiteKey → Option SiteKey → Option SiteKey
switch_site db u user c session none = session
switch_site db u user c session (some all) =
    if ltb 1 (length c.available_sites) then some all else session
switch_site db u user c session (some unassigned) =
    if user.is_superuser then some unassigned else session
switch_site db u user c session (some (id s)) =
    if user.is_superuser
    then admin_choice session (first (is_site s) db.sites.rows)
    else member_choice session (first (is_member_of db u s) db.memberships.rows)
