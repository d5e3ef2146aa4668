-- ===== src/Access/Navigation.antt =====
-- `site_context` of server/django/frontend/context_processors.py: what the templates are told, and
-- that the navigation shows what the views allow.
use flownexus.Prelude.{
  ℕ, zero, suc, String, ◌≡◌, refl, inl, inr, Bool, true, false, ◌&&◌, Option, none, some, List, [],
  ◌∷◌, arith, nat_key, if◌then◌else◌, Bool-cases, Option-cases, nat_eq_iff, subst, sym, ◌∙◌, ltb,
  length,
}
use flownexus.Table.{select, get, first}
use flownexus.Table.Laws.{IsValid}
use flownexus.Table.Search.{Elem, select-Elem, Elem-select, exists-intro, Elem-get}
use flownexus.Models.Rows.{User, Site, SiteMembership, Role, Permission, allows, can_view_overview}
use flownexus.Models.Db.{Db}
use flownexus.Models.Exec.{Result, ok, err}
use flownexus.Access.Middleware.{
  SiteKey, all, unassigned, id, Context, is_member, is_active_site, default_site, is_site,
  is_member_of, admin_site, member_site, site_context,
}
use flownexus.Access.Permissions.{
  grants_at, permitted_site, sites_with_permission, memberships_with_permission, not_empty, is_all,
  is_unassigned, membership_allows, has_site_permission,
}
use flownexus.Access.Isolation.{site_permission_sound, keys-Elem}

pub data SiteRole : Type 0 where
  global_admin multi_site no_role : SiteRole
  role : Role → SiteRole

-- The part of the template context that depends on the site context.
pub record Navigation : Type 0 where
  pub current_site_label : String
  pub show_unassigned_site : Bool
  pub show_all_devices : Bool
  pub site_role : SiteRole
  pub shows : Permission → Bool
  pub can_view_devices : Bool

abbrev site_label : Option Site → String
site_label none = "Select Site"
site_label (some s) = s.name

abbrev site_named : Db → Option ℕ → Option Site
site_named db none = none
site_named db (some s) = get s db.sites

abbrev role_of : Option SiteMembership → SiteRole
role_of none = no_role
role_of (some m) = role m.role

-- The permission variables of the templates.
unfoldable pub shown : Db → ℕ → Context → Permission → Bool
unfolding memberships_with_permission
shown db u c p =
    if c.is_global_admin
    then true
    else if is_all c.current_site_key
    then not_empty (memberships_with_permission db u p)
    else membership_allows c.site_membership p

unfoldable pub navigation : Db → ℕ → Context → Navigation
unfolding shown
navigation db u c = record {
  current_site_label =
      if is_all c.current_site_key
      then "All Devices"
      else if is_unassigned c.current_site_key
      then "Unassigned Devices"
      else site_label (site_named db c.site);
  show_unassigned_site = c.is_global_admin;
  show_all_devices = ltb 1 (length c.available_sites);
  site_role =
      if c.is_global_admin
      then global_admin
      else if is_all c.current_site_key
      then multi_site
      else role_of c.site_membership;
  shows = shown db u c;
  can_view_devices = shown db u c can_view_overview;
}

not_empty-intro : {A : Type 0} (x : A) (xs : List A) → Elem x xs → not_empty xs ≡ true
not_empty-intro x [] h = absurd h
not_empty-intro x (y ∷ ys) h = refl

not_empty_sound : {A : Type 0} (xs : List A) → not_empty xs ≡ true → (x : A) × Elem x xs
not_empty_sound [] h = cc
not_empty_sound (x ∷ xs) h = (x, inl refl)

same_test : (a b : Bool) → (a ≡ true → b ≡ true) → (b ≡ true → a ≡ true) → a ≡ b
same_test true b f g = sym (f refl)
same_test false true f g = g refl
same_test false false f g = refl

module _ (db : Db) (u : ℕ) (user : User) where
  -- Every branch of the middleware tells the request whether its user is a global admin.
  abbrev KnowsAdmin : Result (Context × Option SiteKey) → Type 0
  KnowsAdmin (ok (c, after)) = c.is_global_admin ≡ user.is_superuser
  KnowsAdmin (err e) = Unit

  default-KnowsAdmin :
      (s : Option SiteKey) → (default_site db u user s).0.is_global_admin ≡ user.is_superuser
  unfolding default_site
  default-KnowsAdmin s = ground arith

  admin-KnowsAdmin :
      (s : ℕ)
      → (admin_site db u user (some (id s)) (first (is_site s) db.sites.rows)).0.is_global_admin
        ≡ user.is_superuser
  admin-KnowsAdmin s = elim (Option-cases (first (is_site s) db.sites.rows)) [
    | inl e ↦ rw e (default-KnowsAdmin (some (id s)))
    | inr (x, e) ↦ rw e refl
  ]

  member-KnowsAdmin :
      (s : ℕ)
      → (member_site db u user
          (some (id s))
          (first (is_member_of db u s) db.memberships.rows)).0.is_global_admin
        ≡ user.is_superuser
  member-KnowsAdmin s = elim (Option-cases (first (is_member_of db u s) db.memberships.rows)) [
    | inl e ↦ rw e (default-KnowsAdmin (some (id s)))
    | inr (x, e) ↦ rw e refl
  ]

  context_set : (s : Option SiteKey) → KnowsAdmin (site_context db u user s)
  unfolding site_context
  context_set none = default-KnowsAdmin none
  context_set (some all) = refl
  context_set (some unassigned) = elim (Bool-cases user.is_superuser) [
    | inl y ↦ simp y refl
    | inr n ↦ simp n tt
  ]
  context_set (some (id zero)) = default-KnowsAdmin (some (id zero))
  context_set (some (id (suc s))) = elim (Bool-cases user.is_superuser) [
    | inl y ↦ simp y (admin-KnowsAdmin (suc s) ∙ y)
    | inr n ↦ simp n (member-KnowsAdmin (suc s) ∙ n)
  ]

  is_global_admin-set :
      (session after : Option SiteKey) (c : Context)
      → site_context db u user session ≡ ok (c, after)
      → c.is_global_admin ≡ user.is_superuser
  is_global_admin-set session after c e = subst KnowsAdmin e (context_set session)

active_site :
    (o : Option Site) → is_active_site o ≡ true → (s : Site) × (o ≡ some s) × (s.is_active ≡ true)
active_site none h = cc
active_site (some s) h = (s, refl, h)

member_test :
    (db : Db) (u : ℕ) (p : Permission) (k : ℕ) (m : SiteMembership)
    → m.member ≡ u
    → is_active_site (get m.site db.sites) ≡ true
    → allows m.permissions p ≡ true
    → (is_member db u k m && allows m.permissions p) ≡ true
member_test db u p k m who active may = simp (active, may) (ground (arith, nat_eq_iff m.member u))

member_test_sound :
    (db : Db) (u : ℕ) (p : Permission) (k : ℕ) (m : SiteMembership)
    → (is_member db u k m && allows m.permissions p) ≡ true
    → (m.member ≡ u)
      × (is_active_site (get m.site db.sites) ≡ true)
      × (allows m.permissions p ≡ true)
member_test_sound db u p k m h = ground arith

grants_test :
    (u : ℕ) (p : Permission) (k : ℕ) (m : SiteMembership)
    → m.member ≡ u
    → allows m.permissions p ≡ true
    → grants_at u p m.site k m ≡ true
grants_test u p k m who may = simp may (ground (arith, nat_eq_iff m.member u))

module _ (db : Db) (u : ℕ) (user : User) (plain : user.is_superuser ≡ false) (p : Permission) where
  shown→permitted :
      not_empty (memberships_with_permission db u p) ≡ true
      → not_empty (sites_with_permission db u user p) ≡ true
  unfolding memberships_with_permission sites_with_permission
  shown→permitted h =
      let test = λ (k : ℕ) (m : SiteMembership). is_member db u k m && allows m.permissions p in
      let ((k, m), i) = not_empty_sound (select test db.memberships.rows) h in
      let (row, q) = Elem-select test (k, m) db.memberships.rows i in
      let (who, active, may) = member_test_sound db u p k m q in
      let (site, stored, live) = active_site (get m.site db.sites) active in
      let granted =
        exists-intro (grants_at u p m.site) (k, m) db.memberships.rows row
          (grants_test u p k m who may) in
      not_empty-intro (m.site, site) (select (permitted_site db u user p) db.sites.rows)
        (select-Elem (permitted_site db u user p) (m.site, site) db.sites.rows
          (Elem-get m.site site db.sites stored) (simp (live, plain, granted) refl))

  permitted→shown :
      IsValid db.sites
      → not_empty (sites_with_permission db u user p) ≡ true
      → not_empty (memberships_with_permission db u p) ≡ true
  unfolding memberships_with_permission
  permitted→shown valid h =
      let ((s, site), i) = not_empty_sound (sites_with_permission db u user p) h in
      let ((k, m), row, who, at, may, active) =
        site_permission_sound db u user plain p s valid
          (keys-Elem s site (sites_with_permission db u user p) i) in
      let test = λ (k : ℕ) (m : SiteMembership). is_member db u k m && allows m.permissions p in
      not_empty-intro (k, m) (select test db.memberships.rows)
        (select-Elem test (k, m) db.memberships.rows row
          (member_test db u p k m who (rw at active) may))

  -- The permission variables say what `has_site_permission` says, in any context that knows that
  -- the user is no global admin.
  plain_shown :
      (c : Context)
      → IsValid db.sites
      → c.is_global_admin ≡ false
      → shown db u c p ≡ has_site_permission db u user c p
  unfolding shown has_site_permission
  plain_shown c valid known = elim (Bool-cases (is_all c.current_site_key)) [
    | inl a ↦
        simp (plain, known, a)
          (same_test (not_empty (memberships_with_permission db u p))
            (not_empty (sites_with_permission db u user p)) shown→permitted (permitted→shown valid))
    | inr o ↦ simp (plain, known, o) refl
  ]

-- The navigation offers a page to a user exactly where the views allow it: each permission variable
-- equals the test `has_site_permission` of the views, in every context that the middleware sets.
pub shows-eq-has_site_permission :
    (db : Db) (u : ℕ) (user : User) (session after : Option SiteKey) (c : Context) (p : Permission)
    → IsValid db.sites
    → site_context db u user session ≡ ok (c, after)
    → (navigation db u c).shows p ≡ has_site_permission db u user c p
unfolding navigation has_site_permission
shows-eq-has_site_permission db u user session after c p valid set =
    let known = is_global_admin-set db u user session after c set in
    elim (Bool-cases user.is_superuser) [
      | inl y ↦ simp (y, known ∙ y) refl
      | inr n ↦ plain_shown db u user n p c valid (known ∙ n)
    ]
