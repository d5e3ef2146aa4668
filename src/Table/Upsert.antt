-- ===== src/Table/Upsert.antt =====
-- What a queryset's first row is after rows have been written, added and deleted.
use flownexus.Prelude.{
  ℕ, ◌≡◌, refl, Bool, true, false, Option, none, some, [], ◌∷◌, ◌++◌, ◌==◌, nat_key, Bool-cases,
  inl, inr, if◌then◌else◌, nat_eq_iff,
}
use flownexus.Table.{Rows, select, first, exists, write}
use flownexus.Table.Search.{Elem}

module _ {A : Type 0} where
  abbrev pub or_last : Option (ℕ × A) → Option (ℕ × A) → Option (ℕ × A)
  or_last none later = later
  or_last (some x) later = some x

  pub first-append :
      (q : ℕ → A → Bool) (k : ℕ) (a : A) (r : Rows ℕ A)
      → first q (r ++ (k, a) ∷ []) ≡ or_last (first q r) (if q k a then some (k, a) else none)
  first-append q k a [] = refl
  first-append q k a ((j, b) ∷ r) = elim (Bool-cases (q j b)) [
    | inl e ↦ rw e refl
    | inr e ↦ rw e (first-append q k a r)
  ]

  -- The row, if it stands under `k`, has become `b`.
  abbrev pub rewritten : ℕ → A → Option (ℕ × A) → Option (ℕ × A)
  rewritten k b none = none
  rewritten k b (some (j, a)) = some (j, if j == k then b else a)

  pub first-write :
      (q : ℕ → A → Bool) (k : ℕ) (b : A) (r : Rows ℕ A)
      → ((a : A) → Elem (k, a) r → q k b ≡ q k a)
      → first q (write k b r) ≡ rewritten k b (first q r)
  first-write q k b [] h = refl
  first-write q k b ((j, a) ∷ r) h =
      let later = first-write q k b r (λ c i. h c (inr i)) in
      elim (Bool-cases (j == k)) [
        | inl same ↦
            let at_k : j ≡ k = (nat_eq_iff j k).0 same in
            let agree : q j b ≡ q j a = rw at_k (h a (inl (rw at_k refl))) in
            elim (Bool-cases (q j a)) [
              | inl e ↦ rw (same, agree, e) (rw same refl)
              | inr e ↦ rw (same, agree, e) later
            ]
        | inr other ↦ elim (Bool-cases (q j a)) [
          | inl e ↦ rw (other, e) (rw other refl)
          | inr e ↦ rw (other, e) later
        ]
      ]

  -- Where the rows that `q` selects are all kept, or all deleted.
  pub first-select :
      (keep q : ℕ → A → Bool) (kept : Bool) (r : Rows ℕ A)
      → ((k : ℕ) (a : A) → q k a ≡ true → keep k a ≡ kept)
      → first q (select keep r) ≡ (if kept then first q r else none)
  first-select keep q true [] h = refl
  first-select keep q false [] h = refl
  first-select keep q kept ((k, a) ∷ r) h =
      let later = first-select keep q kept r h in
      elim (Bool-cases (q k a)) [
        | inl e ↦ elim (Bool-cases kept) [
          | inl y ↦ rw (h k a e, y) (rw e refl)
          | inr n ↦ rw (h k a e, n) (rw n at later)
        ]
        | inr e ↦ elim (Bool-cases (keep k a)) [ inl y ↦ rw (y, e) later | inr n ↦ rw (n, e) later ]
      ]

  pub none_exists : (p : ℕ → A → Bool) (r : Rows ℕ A) → first p r ≡ none → exists p r ≡ false
  none_exists p [] h = refl
  none_exists p ((k, a) ∷ r) h = elim (Bool-cases (p k a)) [
    | inl e ↦ let found : ◌≡◌ {A = Option (ℕ × A)} (some (k, a)) none = rw e at h in cc
    | inr e ↦ rw e (none_exists p r (rw e at h))
  ]
