-- ===== src/Access/Middleware.antt =====
-- `SiteContextMiddleware`: the site context of an authenticated request, from the session.
use flownexus.Prelude.{
  ℕ, zero, Bool, false, ◌&&◌, Option, none, some, List, map, ◌==◌, nat_key, if◌then◌else◌, leb,
  head, sort_by,
}
use flownexus.Text.{text_le}
use flownexus.Table.{Rows, select, first, get}
use flownexus.Models.Rows.{User, Site, SiteMembership}
use flownexus.Models.Db.{Db}
use flownexus.Models.Exec.{Result, ok, err, value_error}

-- What the session holds under `current_site_id`, and what `current_site_key` says.
pub data SiteKey : Type 0 where
  all unassigned : SiteKey
  id : ℕ → SiteKey

-- The attributes of a request that the middleware sets. Sites and memberships are named by keys.
pub record Context : Type 0 where
  pub site : Option ℕ
  pub site_membership : Option SiteMembership
  pub current_site_key : Option SiteKey
  pub is_global_admin : Bool
  pub available_sites : List ℕ

-- `Site.Meta.ordering`
abbrev pub by_name : ℕ × Site → ℕ × Site → Bool
by_name (_, a) (_, b) = text_le a.name b.name

-- `SiteMembership.Meta.ordering`: the latest first.
abbrev pub by_joined : ℕ × SiteMembership → ℕ × SiteMembership → Bool
by_joined (_, a) (_, b) = leb b.joined_at a.joined_at

abbrev pub is_active_site : Option Site → Bool
is_active_site none = false
is_active_site (some s) = s.is_active

-- `Site.objects.filter(is_active=True)`
unfoldable pub active_sites : Db → Rows ℕ Site
active_sites db = sort_by by_name (select (λ _ s. s.is_active) db.sites.rows)

-- The test of `filter(user=…, site__is_active=True)`.
abbrev pub is_member : Db → ℕ → ℕ → SiteMembership → Bool
is_member db u _ m = m.member == u && is_active_site (get m.site db.sites)

unfoldable pub active_memberships : Db → ℕ → Rows ℕ SiteMembership
active_memberships db u = sort_by by_joined (select (is_member db u) db.memberships.rows)

abbrev pub site_of : ℕ × SiteMembership → ℕ
site_of (_, m) = m.site

abbrev pub key_of : ℕ × Site → ℕ
key_of (k, _) = k

-- The sites that the request may choose from.
unfoldable pub available : Db → ℕ → User → List ℕ
unfolding active_sites active_memberships
available db u user =
    if user.is_superuser
    then map key_of (active_sites db)
    else map site_of (active_memberships db u)

-- A context with no site.
abbrev pub no_site : Db → ℕ → User → Option SiteKey → Context
no_site db u user key = record {
  site = none;
  site_membership = none;
  current_site_key = key;
  is_global_admin = user.is_superuser;
  available_sites = available db u user;
}

abbrev pub with_site : Db → ℕ → User → ℕ → Option SiteMembership → Context
with_site db u user s m = record (no_site db u user (some (id s))) {
  site = some s;
  site_membership = m;
}

abbrev pub admin_default :
    Db → ℕ → User → Option SiteKey → Option (ℕ × Site) → Context × Option SiteKey
admin_default db u user session none = (no_site db u user none, session)
admin_default db u user session (some (s, _)) = (with_site db u user s none, some (id s))

abbrev pub member_default :
    Db → ℕ → User → Option SiteKey → Option (ℕ × SiteMembership) → Context × Option SiteKey
member_default db u user session none = (no_site db u user none, session)
member_default db u user session (some (_, m)) =
    (with_site db u user m.site (some m), some (id m.site))

-- `_get_default_site`: it also writes the session.
unfoldable pub default_site : Db → ℕ → User → Option SiteKey → Context × Option SiteKey
unfolding active_sites active_memberships available
default_site db u user session =
    if user.is_superuser
    then admin_default db u user session (head (active_sites db))
    else member_default db u user session (head (active_memberships db u))

-- `Site.objects.get(id=…, is_active=True)` in the session of a global admin.
abbrev pub is_site : ℕ → ℕ → Site → Bool
is_site s k site = k == s && site.is_active

abbrev pub admin_site :
    Db → ℕ → User → Option SiteKey → Option (ℕ × Site) → Context × Option SiteKey
admin_site db u user session none = default_site db u user session
admin_site db u user session (some (s, _)) = (with_site db u user s none, session)

-- `SiteMembership.objects.get(user=…, site_id=…, site__is_active=True)`; the pair is unique.
abbrev pub is_member_of : Db → ℕ → ℕ → ℕ → SiteMembership → Bool
is_member_of db u s k m = is_member db u k m && m.site == s

abbrev pub member_site :
    Db → ℕ → User → Option SiteKey → Option (ℕ × SiteMembership) → Context × Option SiteKey
member_site db u user session none = default_site db u user session
member_site db u user session (some (_, m)) = (with_site db u user m.site (some m), session)

-- The context of a request and the session after it. A session value that is no number where one is
-- looked up raises `ValueError`.
unfoldable pub site_context : Db → ℕ → User → Option SiteKey → Result (Context × Option SiteKey)
unfolding default_site
site_context db u user none = ok (default_site db u user none)
site_context db u user (some all) = ok (no_site db u user (some all), some all)
site_context db u user (some unassigned) =
    if user.is_superuser
    then ok (no_site db u user (some unassigned), some unassigned)
    else err value_error
site_context db u user (some (id zero)) = ok (default_site db u user (some (id zero)))
site_context db u user (some (id s)) =
    if user.is_superuser
    then ok (admin_site db u user (some (id s)) (first (is_site s) db.sites.rows))
    else ok (member_site db u user (some (id s)) (first (is_member_of db u s) db.memberships.rows))
