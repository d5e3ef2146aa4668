-- ===== src/Commands/Memberships.antt =====
-- What the loop over a user's sites leaves in the table of memberships.
use flownexus.Prelude.{
  ℕ, ◌≡◌, refl, ap, sym, ◌∙◌, subst, Bool, true, false, ◌&&◌, Option, none, some, List, [], ◌∷◌,
  ◌==◌, nat_key, arith, Bool-cases, inl, inr, if◌then◌else◌, nat_eq_iff, last_of, All,
}
use flownexus.Table.{Table, first}
use flownexus.Table.Laws.{IsValid}
use flownexus.Table.Upsert.{none_exists}
use flownexus.Models.Rows.{Role, Permissions, SiteMembership}
use flownexus.Models.Db.{Db}
use flownexus.Models.Exec.{Result, ok, err, for_each, command_error, bind-returned}
use flownexus.Models.Membership.{same_pair, save_new_membership, apply_role_defaults}
use flownexus.Commands.{save_row, update_or_create}
use flownexus.Commands.Stored.{
  row_of, stored, update_or_create-stored, update_or_create-kept, update_or_create-IsValid,
}
use flownexus.Commands.Members.{
  MembershipConfig, SitesMap, key_of, configured, save_membership, store_membership,
  load_membership,
}

abbrev pub grant_of : Option SiteMembership → Option (Role × Permissions)
grant_of none = none
grant_of (some m) = some (m.role, m.permissions)

-- The role and the permissions of a user at a site.
abbrev pub granted : ℕ → ℕ → Table SiteMembership → Option (Role × Permissions)
granted u s t = grant_of (row_of (first (same_pair u s) t.rows))

abbrev pub fresh : ℕ → ℕ → Role × Permissions → ℕ → SiteMembership
fresh u s (role, permissions) now = record {
  member = u;
  site = s;
  role = role;
  permissions = permissions;
  joined_at = now;
}

abbrev pub regranted : Role × Permissions → SiteMembership → SiteMembership
regranted (role, permissions) m = record m { role = role; permissions = permissions }

-- The membership of the pair is stored.
abbrev pub regrant : ℕ → ℕ → Role × Permissions → ℕ → Table SiteMembership → Table SiteMembership
regrant u s g now t = (update_or_create (same_pair u s) (fresh u s g now) (regranted g) t).1

pub store_membership_lem :
    (u s : ℕ) (g : Role × Permissions) (db : Db)
    → store_membership u s g db
      ≡ (ok tt, record db { memberships = regrant u s g db.now db.memberships })
unfolding store_membership update_or_create save_new_membership apply_role_defaults
store_membership_lem u s g db = go (first (same_pair u s) db.memberships.rows) refl
  where
    go :
        (found : Option (ℕ × SiteMembership))
        → first (same_pair u s) db.memberships.rows ≡ found
        → save_membership found u s g db ≡ (
          ok tt,
          record db {
            memberships = (save_row found (fresh u s g db.now) (regranted g) db.memberships).1;
          },
        )
    go none e = simp (none_exists (same_pair u s) db.memberships.rows e) refl
    go (some (k, m)) e = refl

pair_apart :
    (u s w z k : ℕ) (m : SiteMembership)
    → (w == u && z == s) ≡ false
    → same_pair u s k m ≡ true
    → same_pair w z k m ≡ false
pair_apart u s w z k m away h =
    let at_u : m.member ≡ u = ground (arith, nat_eq_iff m.member u) in
    let at_s : m.site ≡ s = ground (arith, nat_eq_iff m.site s) in
    rw (at_u, at_s) (ground (arith, nat_eq_iff u w, nat_eq_iff s z, nat_eq_iff w u, nat_eq_iff z s))

module _ (u s : ℕ) (g : Role × Permissions) (now : ℕ) (t : Table SiteMembership)
    (v : IsValid t) where
  own_pair : (k : ℕ) → same_pair u s k (fresh u s g now) ≡ true
  own_pair k = ground (arith, nat_eq_iff u u, nat_eq_iff s s)

  grant_stored :
      (o : Option SiteMembership)
      → grant_of (some (stored (fresh u s g now) (regranted g) o)) ≡ some g
  grant_stored none = refl
  grant_stored (some m) = refl

  pub granted-regrant :
      (w z : ℕ)
      → granted w z (regrant u s g now t) ≡ (if w == u && z == s then some g else granted w z t)
  granted-regrant w z = elim (Bool-cases (w == u && z == s)) [
    | inl here ↦
        let at_u : w ≡ u = ground (arith, nat_eq_iff w u) in
        let at_s : z ≡ s = ground (arith, nat_eq_iff z s) in
        rw (here, at_u, at_s)
          (ap grant_of (
              update_or_create-stored (fresh u s g now) (regranted g) t v (same_pair u s)
                (λ k m. refl) (own_pair t.next_id))
            ∙ grant_stored (row_of (first (same_pair u s) t.rows)))
    | inr away ↦ rw away (
        ap (λ o. grant_of (row_of o))
          (update_or_create-kept (fresh u s g now) (regranted g) t v (same_pair u s) (same_pair w z)
            (λ k m. pair_apart u s w z k m away) (λ k m. pair_apart u s w z k m away)
            (pair_apart u s w z t.next_id (fresh u s g now) away (own_pair t.next_id))))
  ]

  pub regrant-IsValid : IsValid (regrant u s g now t)
  regrant-IsValid = update_or_create-IsValid (same_pair u s) (fresh u s g now) (regranted g) t v

abbrev is_key : Option ℕ → ℕ → Bool
is_key none s = false
is_key (some k) s = k == s

-- Whether the entry is about the site.
abbrev pub is_at : SitesMap → ℕ → MembershipConfig → Bool
is_at known s c = is_key (key_of known c.site) s

-- The entry's site is known.
abbrev pub Named : SitesMap → MembershipConfig → Type 0
Named known c = (k : ℕ) × (key_of known c.site ≡ some k)

-- What a user's entries make of the memberships, before those that are left over are deleted.
abbrev pub Granting :
    ℕ → SitesMap → List MembershipConfig → Table SiteMembership → Table SiteMembership → Type 0
Granting u known cs before after =
    IsValid after
    × All (Named known) cs
    × ((w s : ℕ)
        → granted w s after ≡ (
            if w == u
            then last_of (is_at known s) configured cs (granted w s before)
            else granted w s before))

one_more :
    (u w s k : ℕ) (known : SitesMap) (c : MembershipConfig) (cs : List MembershipConfig)
    (before middle after : Option (Role × Permissions))
    → key_of known c.site ≡ some k
    → middle ≡ (if w == u && s == k then some (configured c) else before)
    → after ≡ (if w == u then last_of (is_at known s) configured cs middle else middle)
    → after ≡ (if w == u then last_of (is_at known s) configured (c ∷ cs) before else before)
one_more u w s k known c cs before middle after e f h = elim (Bool-cases (w == u)) [
  | inl same ↦ elim (Bool-cases (s == k)) [
    | inl here ↦
        let hit : (k == s) ≡ true = ground (arith, nat_eq_iff k s, nat_eq_iff s k) in
        let m : middle ≡ some (configured c) = rw (same, here) at f in rw (h, m, same, e, hit) refl
    | inr away ↦
        let miss : (k == s) ≡ false = ground (arith, nat_eq_iff k s, nat_eq_iff s k) in
        let m : middle ≡ before = rw (same, away) at f in rw (h, m, same, e, miss) refl
  ]
  | inr other ↦ let m : middle ≡ before = rw other at f in rw (h, m, other) refl
]

known_site :
    (u : ℕ) (known : SitesMap) (c : MembershipConfig) (db after : Db) (o : Option ℕ)
    → key_of known c.site ≡ o
    → load_membership u known c db ≡ (ok tt, after)
    → (k : ℕ) × (key_of known c.site ≡ some k)
      × (after ≡ record db { memberships = regrant u k (configured c) db.now db.memberships })
unfolding load_membership
known_site u known c db after none e h =
    let refused : ◌≡◌ {A = Result (Unit {0}) × Db} (err command_error, db) (ok tt, after) =
      rw e at h in
    cc
known_site u known c db after (some k) e h =
    let run : store_membership u k (configured c) db ≡ (ok tt, after) = rw e at h in
    (
      k,
      e,
      ap (λ (x : Result (Unit {0}) × Db). x.1)
          (sym run ∙ store_membership_lem u k (configured c) db),
    )

pub load_each-Granting :
    (u : ℕ) (known : SitesMap) (cs : List MembershipConfig) (db after : Db)
    → IsValid db.memberships
    → for_each (load_membership u known) cs db ≡ (ok tt, after)
    → (t : Table SiteMembership) × (after ≡ record db { memberships = t })
      × Granting u known cs db.memberships t
load_each-Granting u known [] db after v h = (
  db.memberships,
  ap (λ (x : Result (Unit {0}) × Db). x.1) (sym h),
  (v, tt, λ w s. elim (Bool-cases (w == u)) [ inl e ↦ rw e refl | inr e ↦ rw e refl ]),
)
load_each-Granting u known (c ∷ cs) db after v h =
    let (_, mid, first_run, rest) =
      bind-returned (load_membership u known c) (λ _. for_each (load_membership u known) cs) db h in
    let (k, e, m) = known_site u known c db mid (key_of known c.site) refl first_run in
    let g = configured c in
    let t = regrant u k g db.now db.memberships in
    let next : for_each (load_membership u known) cs (record db { memberships = t })
        ≡ (ok tt, after) =
      subst (λ d. for_each (load_membership u known) cs d ≡ (ok tt, after)) m rest in
    let (end, same, (valid, all_named, view)) =
      load_each-Granting u known cs (record db { memberships = t }) after
        (regrant-IsValid u k g db.now db.memberships v) next in
    (
      end,
      same,
      (
        valid,
        ((k, e), all_named),
        λ w s.
            one_more u w s k known c cs (granted w s db.memberships) (granted w s t)
              (granted w s end) e (granted-regrant u k g db.now db.memberships v w s) (view w s),
      ),
    )
