-- ===== src/Access/Permissions.antt =====
-- server/django/core/permissions.py: permissions in the current site context, and the endpoints that
-- a request may work on.
use flownexus.Prelude.{
  ℕ, String, Bool, true, false, ◌&&◌, not, Option, none, some, List, [], ◌∷◌, any, ◌==◌, nat_key,
  if◌then◌else◌, is_some,
}
use flownexus.Table.{Rows, select, exists}
use flownexus.Models.Rows.{User, Site, SiteMembership, Permission, allows, Endpoint}
use flownexus.Models.Db.{Db}
use flownexus.Access.Middleware.{SiteKey, all, unassigned, Context, is_member}

abbrev pub grants : Db → ℕ → Permission → ℕ → SiteMembership → Bool
grants db u p _ m = m.member == u && allows m.permissions p

-- A membership of the user in this site that grants the permission.
abbrev pub grants_at : ℕ → Permission → ℕ → ℕ → SiteMembership → Bool
grants_at u p s _ m = m.member == u && allows m.permissions p && m.site == s

abbrev pub permitted_site : Db → ℕ → User → Permission → ℕ → Site → Bool
permitted_site db u user p k s =
    s.is_active
    && (if user.is_superuser then true else exists (grants_at u p k) db.memberships.rows)

-- `sites_with_permission`
unfoldable pub sites_with_permission : Db → ℕ → User → Permission → Rows ℕ Site
sites_with_permission db u user p = select (permitted_site db u user p) db.sites.rows

-- `memberships_with_permission`
unfoldable pub memberships_with_permission : Db → ℕ → Permission → Rows ℕ SiteMembership
memberships_with_permission db u p =
    select (λ k m. is_member db u k m && allows m.permissions p) db.memberships.rows

abbrev pub not_empty {ℓ} : {A : Type ℓ} → List A → Bool
not_empty [] = false
not_empty (x ∷ xs) = true

abbrev pub membership_allows : Option SiteMembership → Permission → Bool
membership_allows none p = false
membership_allows (some m) p = allows m.permissions p

abbrev pub is_all : Option SiteKey → Bool
is_all (some all) = true
is_all _ = false

abbrev pub is_unassigned : Option SiteKey → Bool
is_unassigned (some unassigned) = true
is_unassigned _ = false

-- `has_site_permission`
unfoldable pub has_site_permission : Db → ℕ → User → Context → Permission → Bool
unfolding sites_with_permission
has_site_permission db u user c p =
    if user.is_superuser
    then true
    else if is_all c.current_site_key
    then not_empty (sites_with_permission db u user p)
    else membership_allows c.site_membership p

-- The endpoint belongs to this site.
abbrev pub at_site : ℕ → Endpoint → Bool
at_site s e = elim e.site [ none ↦ false | some t ↦ t == s ]

abbrev pub at_one_of : List ℕ → Endpoint → Bool
at_one_of sites e = any (λ s. at_site s e) sites

abbrev pub has_no_site : Endpoint → Bool
has_no_site e = not (is_some e.site)

abbrev pub keys {ℓ} : {A : Type ℓ} → List (ℕ × A) → List ℕ
keys [] = []
keys ((k, a) ∷ r) = k ∷ keys r

-- The test on an endpoint that the queryset of `get_site_filtered_endpoints` makes.
abbrev pub at_current : Option ℕ → Endpoint → Bool
at_current none e = false
at_current (some s) e = at_site s e

abbrev pub admin_sees : Context → Endpoint → Bool
admin_sees c e = if is_all c.current_site_key then true else at_current c.site e

abbrev pub user_sees_all : Db → ℕ → User → Context → Option Permission → Endpoint → Bool
user_sees_all db u user c none e = at_one_of c.available_sites e
user_sees_all db u user c (some p) e = at_one_of (keys (sites_with_permission db u user p)) e

abbrev pub user_sees_site : Db → ℕ → User → Context → Option Permission → Endpoint → Bool
user_sees_site db u user c none e = at_current c.site e
user_sees_site db u user c (some p) e =
    if has_site_permission db u user c p then at_current c.site e else false

unfoldable pub is_visible : Db → ℕ → User → Context → Option Permission → Endpoint → Bool
unfolding has_site_permission sites_with_permission
is_visible db u user c p e =
    if is_unassigned c.current_site_key
    then user.is_superuser && has_no_site e
    else if user.is_superuser
    then admin_sees c e
    else if is_all c.current_site_key
    then user_sees_all db u user c p e
    else user_sees_site db u user c p e

-- `get_site_filtered_endpoints`
unfoldable pub site_filtered_endpoints :
    Db → ℕ → User → Context → Option Permission → Rows String Endpoint
unfolding is_visible
site_filtered_endpoints db u user c p = select (λ _ e. is_visible db u user c p e) db.endpoints
