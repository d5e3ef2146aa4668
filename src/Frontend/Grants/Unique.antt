-- ===== src/Frontend/Grants/Unique.antt =====
-- The permissions page keeps one membership for each user and site.
use flownexus.Prelude.{
  ℕ, ◌+◌, ◌≤◌, ◌≡◌, refl, ap, String, Bool, true, false, not, Option, none, some, List, [], ◌∷◌,
  ◌++◌, inl, inr, arith, ◌==◌, nat_key, Bool-cases, Option-cases, if◌then◌else◌,
}
use flownexus.Table.{Table, Rows, select, exists, count, get, put, insert, delete_where}
use flownexus.Table.Laws.{IsValid, insert-IsValid, put-IsValid, delete_where-IsValid}
use flownexus.Table.Search.{Elem-get}
use flownexus.Table.Batch.{count-write}
use flownexus.Models.Rows.{User, Permission, SiteMembership}
use flownexus.Models.Db.{Db}
use flownexus.Models.Keeps.{Keeps, keeps_rules}
use flownexus.Models.Membership.{same_pair, save_new_membership, apply_role_defaults}
use flownexus.Frontend.Grants.{
  Flags, Grant, create_user, create_site, create_membership, update_membership, revoke_membership,
  assign_device, transfer_device, bulk_assign, unknown, add_user, add_site, add_membership,
  with_flags, change_membership, update_flags, revoke, place, assign, transfer, bulk, grant,
  permissions_page,
}

-- Keys are unique, and a user has one membership of a site at most.
abbrev pub OneEach : Table SiteMembership → Type 0
OneEach t = IsValid t × ((u s : ℕ) → count (same_pair u s) t.rows ≤ 1)

abbrev pub Keeping : Db → Type 0
Keeping db = OneEach db.memberships

count-append :
    {A : Type 0} (q : ℕ → A → Bool) (k : ℕ) (a : A) (r : Rows ℕ A)
    → count q (r ++ (k, a) ∷ []) ≡ count q r + (if q k a then 1 else 0)
count-append q k a [] = omega arith
count-append q k a ((j, b) ∷ r) = omega (arith, count-append q k a r)

count-none : {A : Type 0} (q : ℕ → A → Bool) (r : Rows ℕ A) → exists q r ≡ false → count q r ≡ 0
count-none q [] h = refl
count-none q ((j, b) ∷ r) h = ground (arith, count-none q r)

count-select : {A : Type 0} (p q : ℕ → A → Bool) (r : Rows ℕ A) → count q (select p r) ≤ count q r
count-select p q [] = omega arith
count-select p q ((j, b) ∷ r) = ground (arith, count-select p q r)

same_pair_lem :
    (u s : ℕ) (m n : SiteMembership) (k j : ℕ)
    → m.member ≡ n.member
    → m.site ≡ n.site
    → same_pair u s k m ≡ same_pair u s j n
same_pair_lem u s m n k j p q = simp (p, q) refl

same_pair_eq :
    (u s k : ℕ) (m : SiteMembership) → same_pair u s k m ≡ true → (m.member ≡ u) × (m.site ≡ s)
same_pair_eq u s k m h = ground arith

pub insert-OneEach :
    (m : SiteMembership) (t : Table SiteMembership)
    → exists (same_pair m.member m.site) t.rows ≡ false
    → OneEach t
    → OneEach (insert m t)
insert-OneEach m t free (valid, one) = (
  insert-IsValid m t valid,
  λ u s.
      let sum = count-append (same_pair u s) t.next_id m t.rows in
      elim (Bool-cases (same_pair u s t.next_id m)) [
        | inl same ↦
            let (a, b) = same_pair_eq u s t.next_id m same in
            let none_yet : count (same_pair u s) t.rows ≡ 0 =
              count-none (same_pair u s) t.rows (rw (← a, ← b) free) in
            ground (arith, sum, none_yet, same)
        | inr other ↦ ground (arith, sum, one u s, other)
      ],
)

pub put-OneEach :
    (k : ℕ) (m n : SiteMembership) (t : Table SiteMembership)
    → get k t ≡ some m
    → n.member ≡ m.member
    → n.site ≡ m.site
    → OneEach t
    → OneEach (put k n t)
put-OneEach k m n t here p q (valid, one) = (
  put-IsValid k n t valid,
  λ u s. omega (
    arith,
    one u s,
    count-write (same_pair u s) 0 t.next_id k n m t.rows valid (Elem-get k m t here),
    ap {B = ℕ} (λ (b : Bool). if b then 1 else 0) (same_pair_lem u s n m k k p q),
  ),
)

pub delete-OneEach :
    (p : ℕ → SiteMembership → Bool) (t : Table SiteMembership)
    → OneEach t
    → OneEach (delete_where p t)
delete-OneEach p t (valid, one) = (
  delete_where-IsValid p t valid,
  λ u s. omega (arith, one u s, count-select (λ k a. not (p k a)) (same_pair u s) t.rows),
)

save_new-Keeping :
    (explicit : Permission → Bool) (m : SiteMembership)
    → Keeps Keeping (save_new_membership explicit m)
unfolding save_new_membership apply_role_defaults
save_new-Keeping explicit m = record {
  at = λ db h. elim (Bool-cases (exists (same_pair m.member m.site) db.memberships.rows)) [
    | inl taken ↦ simp taken h
    | inr free ↦ simp free (
        insert-OneEach (record (apply_role_defaults true explicit m) { joined_at = db.now })
          db.memberships free h)
  ];
}

add_membership-Keeping : (u s : ℕ) (f : Flags) → Keeps Keeping (add_membership u s f)
unfolding add_membership
add_membership-Keeping u s f = search (keeps_rules, save_new-Keeping) depth 9

change-Keeping :
    (k : ℕ) (m : SiteMembership) (form : Option Flags) (db : Db)
    → get k db.memberships ≡ some m
    → Keeping db
    → Keeping (change_membership k m form db).1
change-Keeping k m none db here h = h
change-Keeping k m (some f) db here h =
    put-OneEach k m (with_flags f m) db.memberships here refl refl h

update-Keeping : (id : Option ℕ) (form : Option Flags) → Keeps Keeping (update_flags id form)
unfolding update_flags
update-Keeping none form = record { at = λ db h. h }
update-Keeping (some k) form = record {
  at = λ db h. elim (Option-cases (get k db.memberships)) [
    | inl gone ↦ simp gone h
    | inr (m, here) ↦ simp here (change-Keeping k m form db here h)
  ];
}

revoke-Keeping : (id : Option ℕ) → Keeps Keeping (revoke id)
unfolding revoke
revoke-Keeping none = record { at = λ db h. h }
revoke-Keeping (some k) = record {
  at = λ db h. elim (Option-cases (get k db.memberships)) [
    | inl gone ↦ simp gone h
    | inr (m, here) ↦ simp here (delete-OneEach (λ j _. j == k) db.memberships h)
  ];
}

place-Keeping : (p : String → _ → Bool) (s : ℕ) → Keeps Keeping (place p s)
place-Keeping p s = record { at = λ db h. h }

add_user-Keeping : (name email : String) → Keeps Keeping (add_user name email)
unfolding add_user
add_user-Keeping name email = record { at = λ db h. h }

add_site-Keeping : (name text : String) → Keeps Keeping (add_site name text)
unfolding add_site
add_site-Keeping name text = record { at = λ db h. h }

ruleset granting = (
  keeps_rules, add_membership-Keeping, update-Keeping, revoke-Keeping, place-Keeping,
  add_user-Keeping, add_site-Keeping,
)

assign-Keeping : (ep : String) (s : ℕ) → Keeps Keeping (assign ep s)
unfolding assign
assign-Keeping ep s = search granting depth 9

transfer-Keeping : (ep : String) (form : Option ℕ) → Keeps Keeping (transfer ep form)
unfolding transfer
transfer-Keeping ep none = search granting
transfer-Keeping ep (some s) = search granting depth 9

bulk-Keeping : (eps : List String) (s : ℕ) → Keeps Keeping (bulk eps s)
unfolding bulk
bulk-Keeping eps s = search granting depth 9

grant-Keeping : (g : Grant) → Keeps Keeping (grant g)
unfolding grant
grant-Keeping (create_user none) = search granting
grant-Keeping (create_user (some (name, email))) = add_user-Keeping name email
grant-Keeping (create_site none) = search granting
grant-Keeping (create_site (some (name, text))) = add_site-Keeping name text
grant-Keeping (create_membership none) = search granting
grant-Keeping (create_membership (some (u, s, f))) = add_membership-Keeping u s f
grant-Keeping (update_membership id form) = update-Keeping id form
grant-Keeping (revoke_membership id) = revoke-Keeping id
grant-Keeping (assign_device none) = search granting
grant-Keeping (assign_device (some (ep, s))) = assign-Keeping ep s
grant-Keeping (transfer_device id form) = search (granting, transfer-Keeping) depth 9
grant-Keeping (bulk_assign none) = search granting
grant-Keeping (bulk_assign (some (eps, s))) = bulk-Keeping eps s
grant-Keeping unknown = search granting

page-Keeping : (user : User) (g : Option Grant) → Keeps Keeping (permissions_page user g)
unfolding permissions_page
page-Keeping user none = search granting
page-Keeping user (some g) = search (granting, grant-Keeping)

-- Whatever is posted to the permissions page, and however it ends: where keys are unique and each
-- user has at most one membership of each site, so it is afterwards.
pub permissions_page-OneEach :
    (user : User) (g : Option Grant) (db : Db)
    → OneEach db.memberships
    → OneEach (permissions_page user g db).1.memberships
permissions_page-OneEach user g db h = (page-Keeping user g).at db h
