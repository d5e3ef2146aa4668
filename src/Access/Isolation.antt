-- ===== src/Access/Isolation.antt =====
-- Sites are isolated: a user who is no global admin works on the endpoints of their own active sites
-- only, whatever the session holds.
use flownexus.Prelude.{
  ℕ, String, ◌≡◌, refl, ap, inl, inr, Bool, true, false, Option, none, some, [], ◌∷◌, arith,
  nat_key, if◌then◌else◌, Bool-cases,
}
use flownexus.Table.{Rows, select, exists, get}
use flownexus.Table.Laws.{IsValid}
use flownexus.Table.Search.{Elem, Elem-select, exists_sound, any_sound, get-Elem}
use flownexus.Models.Rows.{User, Site, SiteMembership, Permission, allows, Endpoint}
use flownexus.Models.Db.{Db}
use flownexus.Models.Exec.{ok}
use flownexus.Access.Middleware.{SiteKey, Context, is_member, is_active_site, site_context}
use flownexus.Access.Permissions.{
  grants_at, permitted_site, sites_with_permission, keys, at_site, at_current, is_all,
  is_unassigned, membership_allows, is_visible, site_filtered_endpoints, user_sees_all,
}
use flownexus.Access.Context.{Backed, HasContext, site_context-HasContext}

-- The user may use the permission at this site: a membership grants it, and the site is active.
abbrev pub IsPermitted : Db → ℕ → Permission → ℕ → Type 0
IsPermitted db u p s =
    (x : ℕ × SiteMembership) × Elem x db.memberships.rows
    × (x.1.member ≡ u)
    × (x.1.site ≡ s)
    × (allows x.1.permissions p ≡ true)
    × (is_active_site (get s db.sites) ≡ true)

if-true : (a b : Bool) → (if a then b else false) ≡ true → (a ≡ true) × (b ≡ true)
if-true true b h = (refl, h)
if-true false b h = cc

at_site_sound : (s : ℕ) (e : Endpoint) → at_site s e ≡ true → e.site ≡ some s
at_site_sound s e h = ground arith

Elem-keys : {A : Type 0} (k : ℕ) (r : Rows ℕ A) → Elem k (keys r) → (a : A) × Elem (k, a) r
Elem-keys k [] h = absurd h
Elem-keys k ((j, a) ∷ r) (inl e) = (a, inl (rw e))
Elem-keys k ((j, a) ∷ r) (inr h) = let (b, i) = Elem-keys k r h in (b, inr i)

pub keys-Elem : {A : Type 0} (k : ℕ) (a : A) (r : Rows ℕ A) → Elem (k, a) r → Elem k (keys r)
keys-Elem k a [] h = absurd h
keys-Elem k a ((j, b) ∷ r) (inl e) = inl (ap (λ (x : ℕ × _). x.0) e)
keys-Elem k a ((j, b) ∷ r) (inr h) = inr (keys-Elem k a r h)

granting_member :
    (u s : ℕ) (p : Permission) (k : ℕ) (m : SiteMembership)
    → grants_at u p s k m ≡ true
    → (m.member ≡ u) × (m.site ≡ s) × (allows m.permissions p ≡ true)
granting_member u s p k m h = ground arith

module _ (db : Db) (u : ℕ) (user : User) (plain : user.is_superuser ≡ false) (p : Permission) where
  permitted_site_sound :
      (s : ℕ) (site : Site)
      → permitted_site db u user p s site ≡ true
      → (site.is_active ≡ true) × (exists (grants_at u p s) db.memberships.rows ≡ true)
  permitted_site_sound s site h = ground arith

  pub site_permission_sound :
      (s : ℕ)
      → IsValid db.sites
      → Elem s (keys (sites_with_permission db u user p))
      → IsPermitted db u p s
  unfolding sites_with_permission
  site_permission_sound s valid h =
      let (site, i) = Elem-keys s (select (permitted_site db u user p) db.sites.rows) h in
      let (stored, ok') = Elem-select (permitted_site db u user p) (s, site) db.sites.rows i in
      let (active, granted) = permitted_site_sound s site ok' in
      let ((k, m), row, q) = exists_sound (grants_at u p s) db.memberships.rows granted in
      let (who, where', may) = granting_member u s p k m q in
      ((k, m), row, who, where', may, rw (get-Elem (s, site) db.sites valid stored) active)

  Backed-IsPermitted :
      (s : ℕ) (o : Option SiteMembership)
      → Backed db u (some s) o
      → membership_allows o p ≡ true
      → IsPermitted db u p s
  Backed-IsPermitted s none b may = absurd b
  Backed-IsPermitted s (some m) (k, row, member, at) may =
      ((k, m), row, member_is u k m member, at, may, rw (← at) (member_active k m member))
    where
      member_is : (u k : ℕ) (m : SiteMembership) → is_member db u k m ≡ true → m.member ≡ u
      member_is u k m h = ground arith

      member_active :
          (k : ℕ) (m : SiteMembership)
          → is_member db u k m ≡ true
          → is_active_site (get m.site db.sites) ≡ true
      member_active k m h = ground arith

  -- At one site: the permission is the membership's.
  current-IsPermitted :
      (site : Option ℕ) (m : Option SiteMembership) (e : Endpoint)
      → Backed db u site m
      → membership_allows m p ≡ true
      → at_current site e ≡ true
      → (s : ℕ) × (e.site ≡ some s) × IsPermitted db u p s
  current-IsPermitted none m e b may at = cc
  current-IsPermitted (some s) m e b may at =
      (s, at_site_sound s e at, Backed-IsPermitted s m b may)

  sees_all-IsPermitted :
      (c : Context) (e : Endpoint)
      → IsValid db.sites
      → user_sees_all db u user c (some p) e ≡ true
      → (s : ℕ) × (e.site ≡ some s) × IsPermitted db u p s
  sees_all-IsPermitted c e valid h =
      let (s, i, at) = any_sound (λ s. at_site s e) (keys (sites_with_permission db u user p)) h in
      (s, at_site_sound s e at, site_permission_sound s valid i)

  sees_site-IsPermitted :
      (c : Context) (e : Endpoint)
      → HasContext db u c
      → (if membership_allows c.site_membership p then at_current c.site e else false) ≡ true
      → (s : ℕ) × (e.site ≡ some s) × IsPermitted db u p s
  sees_site-IsPermitted c e has h =
      let (may, at) = if-true (membership_allows c.site_membership p) (at_current c.site e) h in
      current-IsPermitted c.site c.site_membership e has.0 may at

  is_visible-IsPermitted :
      (c : Context) (e : Endpoint)
      → IsValid db.sites
      → HasContext db u c
      → is_visible db u user c (some p) e ≡ true
      → (s : ℕ) × (e.site ≡ some s) × IsPermitted db u p s
  unfolding is_visible
  is_visible-IsPermitted c e valid has h = elim (Bool-cases (is_unassigned c.current_site_key)) [
    | inl y ↦ cc (simp (y, plain) at h)
    | inr n ↦ elim (Bool-cases (is_all c.current_site_key)) [
      | inl a ↦ sees_all-IsPermitted c e valid (simp (n, plain, a) at h)
      | inr o ↦ sees_site-IsPermitted c e has (simp (n, plain, o) at h)
    ]
  ]

  -- Every endpoint that a view offers under a permission, to a user who is no global admin, belongs
  -- to an active site where a membership of that user grants the permission. The context is the
  -- middleware's, from whatever the session holds, and site keys are unique.
  pub site_filtered_endpoints-IsPermitted :
      (session after : Option SiteKey) (c : Context) (ep : String) (e : Endpoint)
      → IsValid db.sites
      → site_context db u user session ≡ ok (c, after)
      → Elem (ep, e) (site_filtered_endpoints db u user c (some p))
      → (s : ℕ) × (e.site ≡ some s) × IsPermitted db u p s
  unfolding site_filtered_endpoints
  site_filtered_endpoints-IsPermitted session after c ep e valid set h =
      let (i, q) =
        Elem-select (λ _ e'. is_visible db u user c (some p) e') (ep, e) db.endpoints h in
      is_visible-IsPermitted c e valid (site_context-HasContext db u user plain session c after set)
        q
