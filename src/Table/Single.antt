-- ===== src/Table/Single.antt =====
-- The one row that a test selects, when it is saved.
use flownexus.Prelude.{
  ℕ, suc, ◌≤◌, ◌≡◌, refl, sym, subst, Bool, true, false, [], ◌∷◌, ◌==◌, nat_key, arith, Bool-cases,
  inl, inr, if◌then◌else◌, nat_eq_iff,
}
use flownexus.Table.{Rows, select, write}
use flownexus.Table.Laws.{Rising}
use flownexus.Table.Search.{Elem, Elem-ge, Elem-select}

module _ {A : Type 0} where
  write_above : (lo hi k : ℕ) (v : A) (r : Rows ℕ A) → Rising lo r hi → suc k ≤ lo → write k v r ≡ r
  write_above lo hi k v [] h le = refl
  write_above lo hi k v ((j, b) ∷ r) h le = ground (arith, write_above (suc j) hi k v r h.1)

  -- What is selected after the row `k`, which alone was selected, has become `v`.
  pub select-write :
      (p : ℕ → A → Bool) (lo hi k : ℕ) (u v : A) (r : Rows ℕ A)
      → Rising lo r hi
      → select p r ≡ (k, u) ∷ []
      → select p (write k v r) ≡ (if p k v then (k, v) ∷ [] else [])
  select-write p lo hi k u v [] h e = cc
  select-write p lo hi k u v ((j, a) ∷ r) h e = elim (Bool-cases (p j a)) [
    | inl here ↦
        let one : (j, a) ∷ select p r ≡ (k, u) ∷ [] = rw here at e in
        let key : j ≡ k = cc in
        let none_left : select p r ≡ [] = cc in
        let same : (j == k) ≡ true = (nat_eq_iff j k).1 key in
        rw (same, write_above (suc j) hi k v r h.1 (omega arith), none_left, key) refl
    | inr other ↦
        let one : select p r ≡ (k, u) ∷ [] = rw other at e in
        let above : suc j ≤ k =
          Elem-ge (suc j) hi (k, u) r h.1
            (Elem-select p (k, u) r (subst (Elem (k, u)) (sym one) (inl refl))).0 in
        let apart : (j == k) ≡ false = ground arith in
        rw (apart, other) (select-write p (suc j) hi k u v r h.1 one)
  ]
