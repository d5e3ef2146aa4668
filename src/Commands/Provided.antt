-- ===== src/Commands/Provided.antt =====
-- The memberships that `load_memberships` leaves.
use flownexus.Prelude.{
  ℕ, ◌≡◌, refl, ap, sym, ◌∙◌, String, Bool, true, false, ◌&&◌, not, Option, none, some, List, [],
  ◌∷◌, All, ◌==◌, nat_key, text_key, arith, Bool-cases, inl, inr, if◌then◌else◌, nat_eq_iff, any,
  last_of, last_of_hit, last_of_missed,
}
use flownexus.Table.{Table, first, find, get, delete_where}
use flownexus.Table.Laws.{IsValid, delete_where-IsValid}
use flownexus.Table.Upsert.{first-select}
use flownexus.Models.Rows.{Role, Permissions, SiteMembership}
use flownexus.Models.Db.{Db}
use flownexus.Models.Exec.{Result, ok, for_each, bind-returned}
use flownexus.Models.Membership.{same_pair}
use flownexus.Commands.Stored.{row_of}
use flownexus.Commands.Members.{
  MembershipConfig, SitesMap, key_of, is_named, configured, load_membership, load_memberships,
  is_desired, is_left_over,
}
use flownexus.Commands.Memberships.{granted, grant_of, is_at, Named, load_each-Granting}

-- The map gives a name the key of the one site that has it.
abbrev pub Loaded : SitesMap → Db → Type 0
Loaded known db =
    (name : String) (k s : ℕ)
    → find name known ≡ some k
    → is_named (get s db.sites) (some name) ≡ (k == s)

module _ (known : SitesMap) (db : Db) (loaded : Loaded known db) (s : ℕ) where
  named_at :
      (c : MembershipConfig) (site : Option String) (k : ℕ)
      → key_of known site ≡ some k
      → is_named (get s db.sites) site ≡ (k == s)
  named_at c none k h = cc
  named_at c (some name) k h = loaded name k s h

  pub desired-at :
      (cs : List MembershipConfig)
      → All (Named known) cs
      → is_desired (get s db.sites) cs ≡ any (is_at known s) cs
  desired-at [] all_named = refl
  desired-at (c ∷ cs) ((k, e), rest) = rw (named_at c c.site k e, e, desired-at cs rest) refl

module _ (keep : ℕ → SiteMembership → Bool) (w s : ℕ) (kept : Bool) (t : Table SiteMembership) where
  granted-kept :
      ((k : ℕ) (m : SiteMembership) → m.member ≡ w → m.site ≡ s → not (keep k m) ≡ kept)
      → granted w s (delete_where keep t) ≡ (if kept then granted w s t else none)
  granted-kept h =
      ap (λ o. grant_of (row_of o))
        (first-select (λ k m. not (keep k m)) (same_pair w s) kept t.rows
          (λ k m p.
            h k m (ground (arith, nat_eq_iff m.member w)) (ground (arith, nat_eq_iff m.site s))))
      ∙ outside kept (first (same_pair w s) t.rows)
    where
      outside :
          (b : Bool) (o : Option (ℕ × SiteMembership))
          → grant_of (row_of (if b then o else none)) ≡ (if b then grant_of (row_of o) else none)
      outside true o = refl
      outside false o = refl

-- What the entries of a user say of a site.
abbrev pub as_listed : SitesMap → Bool → List MembershipConfig → ℕ → Option (Role × Permissions)
as_listed known true cs s = none
as_listed known false cs s = last_of (is_at known s) configured cs none

abbrev pub Provided : ℕ → SitesMap → Bool → List MembershipConfig → Db → Db → Type 0
Provided u known superuser cs before after =
    (w s : ℕ)
    → granted w s after.memberships
      ≡ (if w == u then as_listed known superuser cs s else granted w s before.memberships)

-- The loop and the deletion after it.
listed_only :
    (u w s : ℕ) (known : SitesMap) (cs : List MembershipConfig) (desired : Bool)
    (before middle after : Option (Role × Permissions))
    → desired ≡ any (is_at known s) cs
    → middle ≡ (if w == u then last_of (is_at known s) configured cs before else before)
    → after ≡ (if not (w == u && not desired) then middle else none)
    → after ≡ (if w == u then last_of (is_at known s) configured cs none else before)
listed_only u w s known cs desired before middle after d m a = elim (Bool-cases (w == u)) [
  | inr other ↦ rw (a, other, m, other) refl
  | inl same ↦ elim (Bool-cases desired) [
    | inl yes_listed ↦
        rw (a, same, yes_listed, m, same)
          (last_of_hit (is_at known s) configured cs before none (sym d ∙ yes_listed))
    | inr not_listed ↦
        rw (a, same, not_listed)
          (sym (last_of_missed (is_at known s) configured cs none (sym d ∙ not_listed)))
  ]
]

pub load_memberships-Provided :
    (u : ℕ) (superuser : Bool) (known : SitesMap) (cs : List MembershipConfig) (db after : Db)
    → IsValid db.memberships
    → Loaded known db
    → load_memberships u superuser known cs db ≡ (ok tt, after)
    → Provided u known superuser cs db after
      × (after.users ≡ db.users)
      × (after.sites ≡ db.sites)
      × IsValid after.memberships
unfolding load_memberships
load_memberships-Provided u true known cs db after v loaded h =
    let left : after
        ≡ record db { memberships = delete_where (λ _ m. m.member == u) db.memberships } =
      ap (λ (x : Result (Unit {0}) × Db). x.1) (sym h) in
    rw left (
      λ w s.
          granted-kept (λ _ m. m.member == u) w s (not (w == u)) db.memberships
            (λ k m at_w at_s. rw at_w refl)
          ∙ flipped (w == u) (granted w s db.memberships),
      refl,
      refl,
      delete_where-IsValid (λ _ m. m.member == u) db.memberships v,
    )
  where
    flipped :
        (b : Bool) (o : Option (Role × Permissions))
        → (if not b then o else none) ≡ (if b then none else o)
    flipped true o = refl
    flipped false o = refl
load_memberships-Provided u false known cs db after v loaded h =
    let (_, mid, looped, deleted) =
      bind-returned (for_each (load_membership u known) cs)
        (λ _ d.
          (ok tt, record d { memberships = delete_where (is_left_over d u cs) d.memberships }))
        db h in
    let (t, same, (valid, all_named, view)) = load_each-Granting u known cs db mid v looped in
    let left : after ≡ record db { memberships = delete_where (is_left_over db u cs) t } =
      ap (λ (x : Result (Unit {0}) × Db). x.1) (sym deleted)
      ∙ ap {A = Db} {B = Db}
          (λ d. record d { memberships = delete_where (is_left_over d u cs) d.memberships }) same in
    rw left (
      λ w s.
          listed_only u w s known cs (is_desired (get s db.sites) cs) (granted w s db.memberships)
            (granted w s t) (granted w s (delete_where (is_left_over db u cs) t))
            (desired-at known db loaded s cs all_named) (view w s)
            (granted-kept (is_left_over db u cs) w s
              (not (w == u && not (is_desired (get s db.sites) cs))) t
              (λ k m at_w at_s. rw (at_w, at_s) refl)),
      refl,
      refl,
      delete_where-IsValid (is_left_over db u cs) t valid,
    )
