-- ===== src/Commands/Users.antt =====
-- What `load_scenario` leaves of its users.
use flownexus.Prelude.{
  ℕ, ◌≡◌, refl, ap, subst, ◌∙◌, String, true, false, some, List, [], ◌∷◌, ◌==◌, nat_key, text_key,
  nat_eq_iff, eq_iff, Bool-cases, inl, inr, any, arith, if◌then◌else◌,
}
use flownexus.Table.{Table, first}
use flownexus.Table.Laws.{IsValid}
use flownexus.Table.Search.{Elem, Elem-first}
use flownexus.Models.Rows.{User}
use flownexus.Models.Db.{Db}
use flownexus.Models.Exec.{Result, ok, for_each, bind-returned, state_of}
use flownexus.Commands.Stored.{row_unique}
use flownexus.Commands.Members.{UserConfig, SitesMap, load_user}
use flownexus.Commands.Memberships.{granted}
use flownexus.Commands.Provided.{as_listed}
use flownexus.Commands.Granted.{called, Stored, is_user, Ready, load_user-Stored}

-- The user stands under `u` with the flags of the entry, and may do what the entry says.
abbrev pub UserIs : SitesMap → UserConfig → ℕ → Db → Type 0
UserIs known c u db =
    Stored c u db.users
    × ((s : ℕ) → granted u s db.memberships ≡ as_listed known c.is_superuser c.sites s)

-- So it is for each entry that no later one of the same name follows.
abbrev pub UsersLoaded : SitesMap → List UserConfig → Db → Type 0
UsersLoaded known [] db = Unit
UsersLoaded known (c ∷ cs) db =
    ((name : String)
      → c.username ≡ some name
      → any (is_user name) cs ≡ false
      → (u : ℕ) × UserIs known c u db)
    × UsersLoaded known cs db

module _ (known : SitesMap) (c : UserConfig) (name : String) (named : c.username ≡ some name) where
  -- Users of different names stand under different keys.
  keys_apart :
      (d : UserConfig) (u w : ℕ) (t : Table User)
      → IsValid t
      → Stored c u t
      → Stored d w t
      → is_user name d ≡ false
      → (u == w) ≡ false
  keys_apart d u w t v (n, row, n_is, at_u, _, _) (m, other, m_is, at_w, _, _) apart =
      elim (Bool-cases (u == w)) [
        | inr differs ↦ differs
        | inl same ↦
            let key : u ≡ w = (nat_eq_iff u w).0 same in
            let here = Elem-first (called n) (u, row) t.rows at_u in
            let there = Elem-first (called m) (w, other) t.rows at_w in
            let one : row ≡ other =
              row_unique t w row other v (subst (λ k. Elem (k, row) t.rows) key here.0) there.0 in
            let n_name : row.username ≡ n = (eq_iff row.username n).0 here.1 in
            let m_name : other.username ≡ m = (eq_iff other.username m).0 there.1 in
            let one_name : m ≡ name = cc in
            let clash : (m == name) ≡ true = (eq_iff m name).1 one_name in
            let refused : (m == name) ≡ false = rw m_is at apart in cc
      ]

  kept_by :
      (d : UserConfig) (u : ℕ) (db after : Db)
      → Ready known db
      → UserIs known c u db
      → is_user name d ≡ false
      → load_user known d db ≡ (ok tt, after)
      → Ready known after × UserIs known c u after
  kept_by d u db after ready ((n, row, n_is, at_u, super, staff), may) apart ran =
      let ((v, m, l), (w, (other, view, kept))) = load_user-Stored known d db after ready ran in
      let same_name : name ≡ n = cc in
      let still : first (called n) after.users.rows ≡ some (u, row) =
        kept n (subst (λ x. is_user x d ≡ false) same_name apart) ∙ at_u in
      let differs : (u == w) ≡ false =
        keys_apart d u w after.users v (n, row, n_is, still, super, staff) other apart in
      (
        (v, m, l),
        ((n, row, n_is, still, super, staff), λ s. let e = view u s in rw differs at e ∙ may s),
      )

  kept_by_all :
      (cs : List UserConfig) (u : ℕ) (db after : Db)
      → Ready known db
      → UserIs known c u db
      → any (is_user name) cs ≡ false
      → for_each (load_user known) cs db ≡ (ok tt, after)
      → UserIs known c u after
  kept_by_all [] u db after ready is apart ran =
      subst (λ d. UserIs known c u d) (ap (λ (x : Result (Unit {0}) × Db). x.1) ran) is
  kept_by_all (d ∷ cs) u db after ready is apart ran =
      let (_, mid, first_run, rest) =
        bind-returned (load_user known d) (λ _. for_each (load_user known) cs) db ran in
      let here : is_user name d ≡ false = ground arith in
      let later : any (is_user name) cs ≡ false = ground arith in
      let (ready_then, is_then) = kept_by d u db mid ready is here first_run in
      kept_by_all cs u mid after ready_then is_then later rest

  own_grants :
      (u : ℕ) (db after : Db)
      → ((w s : ℕ)
          → granted w s after.memberships ≡ (
              if w == u
              then as_listed known c.is_superuser c.sites s
              else granted w s db.memberships))
      → (s : ℕ) → granted u s after.memberships ≡ as_listed known c.is_superuser c.sites s
  own_grants u db after view s =
      let same : (u == u) ≡ true = (nat_eq_iff u u).1 refl in let e = view u s in rw same at e

pub all_loaded :
    (known : SitesMap) (cs : List UserConfig) (db after : Db)
    → Ready known db
    → for_each (load_user known) cs db ≡ (ok tt, after)
    → Ready known after × UsersLoaded known cs after
all_loaded known [] db after ready ran = (subst (Ready known) (state_of ran) ready, tt)
all_loaded known (c ∷ cs) db after ready ran =
    let (_, mid, first_run, rest) =
      bind-returned (load_user known c) (λ _. for_each (load_user known) cs) db ran in
    let (ready_then, (u, (there, view, _))) = load_user-Stored known c db mid ready first_run in
    let (ready_end, others) = all_loaded known cs mid after ready_then rest in
    (
      ready_end,
      (
        λ name named last. (
          u,
          kept_by_all known c name named cs u mid after ready_then
              (there, own_grants known c name named u db mid view) last rest,
        ),
        others,
      ),
    )
