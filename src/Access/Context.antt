-- ===== src/Access/Context.antt =====
-- What the middleware establishes for a user who is no global admin: the site of the request comes
-- with a membership of that user in that active site, and so does every site that is on offer.
use flownexus.Prelude.{
  ℕ, zero, suc, ◌≡◌, refl, sym, subst, true, false, Option, none, some, map, arith, Option-cases,
  inl, inr, head,
}
use flownexus.Table.{select, first}
use flownexus.Table.Search.{Elem, Elem-sort_by, Elem-head, Elem-map, Elem-select, Elem-first}
use flownexus.Models.Rows.{User, SiteMembership}
use flownexus.Models.Db.{Db}
use flownexus.Models.Exec.{Result, ok, err}
use flownexus.Access.Middleware.{
  SiteKey, all, unassigned, id, Context, is_member, is_member_of, active_memberships, site_of,
  available, default_site, member_site, site_context, by_joined,
}

-- The user is a member of this active site, by a row of the table.
abbrev pub IsMemberOf : Db → ℕ → ℕ → Type 0
IsMemberOf db u s =
    (x : ℕ × SiteMembership) × Elem x db.memberships.rows
    × (is_member db u x.0 x.1 ≡ true)
    × (x.1.site ≡ s)

-- The site of a request is backed by its membership.
abbrev pub Backed : Db → ℕ → Option ℕ → Option SiteMembership → Type 0
Backed db u none m = Unit
Backed db u (some s) none = ⊥
Backed db u (some s) (some m) =
    (k : ℕ) × Elem (k, m) db.memberships.rows × (is_member db u k m ≡ true) × (m.site ≡ s)

abbrev pub HasContext : Db → ℕ → Context → Type 0
HasContext db u c =
    Backed db u c.site c.site_membership × ((s : ℕ) → Elem s c.available_sites → IsMemberOf db u s)

active_member :
    (db : Db) (u : ℕ) (x : ℕ × SiteMembership)
    → Elem x (active_memberships db u)
    → Elem x db.memberships.rows × (is_member db u x.0 x.1 ≡ true)
unfolding active_memberships
active_member db u x h =
    Elem-select (is_member db u) x db.memberships.rows
      (Elem-sort_by by_joined x (select (is_member db u) db.memberships.rows) h)

offered-IsMemberOf :
    (db : Db) (u s : ℕ) → Elem s (map site_of (active_memberships db u)) → IsMemberOf db u s
offered-IsMemberOf db u s h =
    let (x, i, e) = Elem-map site_of s (active_memberships db u) h in
    let (stored, member) = active_member db u x i in (x, stored, member, sym e)

module _ (db : Db) (u : ℕ) (user : User) (plain : user.is_superuser ≡ false) where
  default-HasContext :
      (session : Option SiteKey) → HasContext db u (default_site db u user session).0
  unfolding default_site
  default-HasContext session = elim (Option-cases (head (active_memberships db u))) [
    | inl nobody ↦ simp (plain, nobody) (tt, offered-IsMemberOf db u)
    | inr ((k, m), e) ↦
        let (stored, member) =
          active_member db u (k, m) (Elem-head (k, m) (active_memberships db u) e) in
        simp (plain, e) ((k, stored, member, refl), offered-IsMemberOf db u)
  ]

  member_of_sound :
      (s k : ℕ) (m : SiteMembership) → is_member_of db u s k m ≡ true → is_member db u k m ≡ true
  member_of_sound s k m h = ground arith

  chosen-HasContext :
      (s : ℕ) (session : Option SiteKey)
      → HasContext db u
          (member_site db u user session (first (is_member_of db u s) db.memberships.rows)).0
  chosen-HasContext s session =
      elim (Option-cases (first (is_member_of db u s) db.memberships.rows)) [
        | inl nobody ↦ rw nobody (default-HasContext session)
        | inr ((k, m), e) ↦
            let (stored, member) = Elem-first (is_member_of db u s) (k, m) db.memberships.rows e in
            unfold available in
            simp (plain, e)
              ((k, stored, member_of_sound s k m member, refl), offered-IsMemberOf db u)
      ]

  -- `P` holds of the context, if one is set.
  abbrev Sets : (Context → Type 0) → Result (Context × Option SiteKey) → Type 0
  Sets P (ok (c, after)) = P c
  Sets P (err e) = Unit

  context_set : (session : Option SiteKey) → Sets (HasContext db u) (site_context db u user session)
  unfolding site_context
  context_set none = default-HasContext none
  context_set (some all) = simp plain (tt, offered-IsMemberOf db u)
  context_set (some unassigned) = simp plain tt
  context_set (some (id zero)) = default-HasContext (some (id zero))
  context_set (some (id (suc s))) = simp plain (chosen-HasContext (suc s) (some (id (suc s))))

  -- Whatever the session holds, the context is backed by memberships.
  pub site_context-HasContext :
      (session : Option SiteKey) (c : Context) (after : Option SiteKey)
      → site_context db u user session ≡ ok (c, after)
      → HasContext db u c
  site_context-HasContext session c after e = subst (Sets (HasContext db u)) e (context_set session)
