-- ===== src/Commands/Stored.antt =====
-- `update_or_create`: what a lookup finds after it.
use flownexus.Prelude.{
  ℕ, ◌≡◌, refl, ap, sym, ◌∙◌, Bool, true, false, Option, none, some, ◌==◌, nat_key, Bool-cases, inl,
  inr, nat_eq_iff,
}
use flownexus.Table.{Table, first, get}
use flownexus.Table.Laws.{IsValid, insert-IsValid, put-IsValid}
use flownexus.Table.Search.{Elem, Elem-first, get-Elem}
use flownexus.Table.Upsert.{or_last, first-append, first-write, rewritten}
use flownexus.Commands.{save_row, update_or_create}

abbrev pub row_of : {A : Type 0} → Option (ℕ × A) → Option A
row_of none = none
row_of (some (k, a)) = some a

module _ {A : Type 0} where
  abbrev pub stored : A → (A → A) → Option A → A
  stored new change none = new
  stored new change (some a) = change a

  -- A key stands in one row.
  pub row_unique :
      (t : Table A) (k : ℕ) (a c : A) → IsValid t → Elem (k, a) t.rows → Elem (k, c) t.rows → a ≡ c
  row_unique t k a c v i j =
      let one : get k t ≡ some a = get-Elem (k, a) t v i in
      let two : get k t ≡ some c = get-Elem (k, c) t v j in cc

  or_last-none : (o : Option (ℕ × A)) → or_last o none ≡ o
  or_last-none none = refl
  or_last-none (some x) = refl

  module _ (new : A) (change : A → A) (t : Table A) (valid : IsValid t) where
    pub save_row-IsValid : (found : Option (ℕ × A)) → IsValid (save_row found new change t).1
    save_row-IsValid none = insert-IsValid new t valid
    save_row-IsValid (some (k, a)) = put-IsValid k (change a) t valid

    module _ (p : ℕ → A → Bool) (keeps : (k : ℕ) (a : A) → p k (change a) ≡ p k a)
        (fits : p t.next_id new ≡ true) where
      saved :
          (found : Option (ℕ × A))
          → first p t.rows ≡ found
          → first p (save_row found new change t).1.rows
            ≡ some ((save_row found new change t).0, stored new change (row_of found))
      saved none e = rw (first-append p t.next_id new t.rows, e, fits) refl
      saved (some (k, a)) e =
          let here = Elem-first p (k, a) t.rows e in
          let agree = λ (c : A) (i : Elem (k, c) t.rows).
            keeps k a ∙ ap (p k) (row_unique t k a c valid here.0 i) in
          let same : (k == k) ≡ true = (nat_eq_iff k k).1 refl in
          rw (first-write p k (change a) t.rows agree, e, same) refl

      pub update_or_create-first :
          first p (update_or_create p new change t).1.rows
          ≡ some ((update_or_create p new change t).0, stored new change (row_of (first p t.rows)))
      unfolding update_or_create
      update_or_create-first = saved (first p t.rows) refl

      pub update_or_create-stored :
          row_of (first p (update_or_create p new change t).1.rows)
          ≡ some (stored new change (row_of (first p t.rows)))
      update_or_create-stored = ap row_of update_or_create-first

    module _ (p q : ℕ → A → Bool) (apart : (k : ℕ) (a : A) → p k a ≡ true → q k a ≡ false)
        (changed : (k : ℕ) (a : A) → p k a ≡ true → q k (change a) ≡ false)
        (unfit : q t.next_id new ≡ false) where
      elsewhere :
          (k : ℕ) (a : A) (found : Option (ℕ × A))
          → Elem (k, a) t.rows
          → q k a ≡ false
          → first q t.rows ≡ found
          → rewritten k (change a) found ≡ found
      elsewhere k a none i miss e = refl
      elsewhere k a (some (j, c)) i miss e =
          let there = Elem-first q (j, c) t.rows e in
          elim (Bool-cases (j == k)) [
            | inl same ↦
                let key : j ≡ k = (nat_eq_iff j k).0 same in
                let moved : Elem (k, c) t.rows = rw (sym key) there.0 in
                let one : a ≡ c = row_unique t k a c valid i moved in cc
            | inr other ↦ rw other refl
          ]

      kept :
          (found : Option (ℕ × A))
          → first p t.rows ≡ found
          → first q (save_row found new change t).1.rows ≡ first q t.rows
      kept none e = rw (first-append q t.next_id new t.rows, unfit) (or_last-none (first q t.rows))
      kept (some (k, a)) e =
          let here = Elem-first p (k, a) t.rows e in
          let miss = apart k a here.1 in
          let agree = λ (c : A) (i : Elem (k, c) t.rows).
            changed k a here.1 ∙ sym miss ∙ ap (q k) (row_unique t k a c valid here.0 i) in
          first-write q k (change a) t.rows agree ∙ elsewhere k a (first q t.rows) here.0 miss refl

      pub update_or_create-kept : first q (update_or_create p new change t).1.rows ≡ first q t.rows
      unfolding update_or_create
      update_or_create-kept = kept (first p t.rows) refl

  pub update_or_create-IsValid :
      (p : ℕ → A → Bool) (new : A) (change : A → A) (t : Table A)
      → IsValid t
      → IsValid (update_or_create p new change t).1
  unfolding update_or_create
  update_or_create-IsValid p new change t v = save_row-IsValid new change t v (first p t.rows)
