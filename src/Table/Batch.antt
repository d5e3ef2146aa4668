-- ===== src/Table/Batch.antt =====
-- A loop that saves each row of a queryset changes the table as one update of those rows would.
use flownexus.Prelude.{
  ℕ, suc, ◌+◌, ◌≤◌, ◌<◌, ◌≡◌, refl, ap, sym, subst, ◌∙◌, Bool, true, false, ◌&&◌, [], ◌∷◌, ◌==◌,
  nat_key, arith, Bool-cases, inl, inr, if◌then◌else◌, nat_eq_iff, length,
}
use flownexus.Table.{Rows, select, count, update_where, write}
use flownexus.Table.Laws.{Rising}
use flownexus.Table.Search.{Elem, Elem-ge}

module _ {A : Type 0} where
  -- `for row in rows: row.save()`, where `f` is what the loop does to a row.
  abbrev pub write_all : (A → A) → Rows ℕ A → Rows ℕ A → Rows ℕ A
  write_all f [] r = r
  write_all f ((k, a) ∷ s) r = write_all f s (write k (f a) r)

  -- Every key of the rows is above `k`.
  abbrev Above : ℕ → Rows ℕ A → Type 0
  Above k [] = Unit
  Above k ((j, a) ∷ r) = (k < j) × Above k r

  Rising-Above : (lo hi k : ℕ) (r : Rows ℕ A) → k < lo → Rising lo r hi → Above k r
  Rising-Above lo hi k [] lt h = tt
  Rising-Above lo hi k ((j, a) ∷ r) lt h =
      (omega arith, Rising-Above (suc j) hi k r (omega arith) h.1)

  Above-select : (p : ℕ → A → Bool) (k : ℕ) (r : Rows ℕ A) → Above k r → Above k (select p r)
  Above-select p k [] h = tt
  Above-select p k ((j, a) ∷ r) h = elim (Bool-cases (p j a)) [
    | inl e ↦ rw e (h.0, Above-select p k r h.1)
    | inr e ↦ rw e (Above-select p k r h.1)
  ]

  write-Above : (k : ℕ) (a : A) (r : Rows ℕ A) → Above k r → write k a r ≡ r
  write-Above k a [] h = refl
  write-Above k a ((j, b) ∷ r) h = ground (arith, write-Above k a r h.1)

  write-head : (k : ℕ) (a b : A) (r : Rows ℕ A) → Above k r → write k b ((k, a) ∷ r) ≡ (k, b) ∷ r
  write-head k a b r h = ground (arith, write-Above k b r h)

  write_all-cons :
      (f : A → A) (k : ℕ) (a : A) (s r : Rows ℕ A)
      → Above k s
      → write_all f s ((k, a) ∷ r) ≡ (k, a) ∷ write_all f s r
  write_all-cons f k a [] r h = refl
  write_all-cons f k a ((j, b) ∷ s) r h =
      let other : (k == j) ≡ false = ground arith in
      rw other (write_all-cons f k a s (write j (f b) r) h.1)

  pub write_all-select :
      (p : ℕ → A → Bool) (f : A → A) (lo hi : ℕ) (r : Rows ℕ A)
      → Rising lo r hi
      → write_all f (select p r) r ≡ update_where p f r
  write_all-select p f lo hi [] h = refl
  write_all-select p f lo hi ((k, a) ∷ r) h =
      let above = Rising-Above (suc k) hi k r (omega arith) h.1 in
      let rest = write_all-select p f (suc k) hi r h.1 in
      elim (Bool-cases (p k a)) [
        | inl e ↦ rw e (
            ap (write_all f (select p r)) (write-head k a (f a) r above)
            ∙ write_all-cons f k (f a) (select p r) r (Above-select p k r above)
            ∙ ap (λ (t : Rows ℕ A). (k, f a) ∷ t) rest)
        | inr e ↦ rw e (
            write_all-cons f k a (select p r) r (Above-select p k r above)
            ∙ ap (λ (t : Rows ℕ A). (k, a) ∷ t) rest)
      ]

  -- After the update, a second test selects what it would select of each row as it then is.
  pub count-update_where :
      (q p : ℕ → A → Bool) (f : A → A) (r : Rows ℕ A)
      → count q (update_where p f r) ≡ count (λ k a. q k (if p k a then f a else a)) r
  count-update_where q p f [] = refl
  count-update_where q p f ((k, a) ∷ r) = rw (count-update_where q p f r) refl

  pub count-above :
      (key lo hi : ℕ) (q : ℕ → A → Bool) (r : Rows ℕ A)
      → Rising lo r hi
      → key < lo
      → count (λ k a. q k a && key == k) r ≡ 0
  count-above key lo hi q [] h lt = refl
  count-above key lo hi q ((k, a) ∷ r) h lt =
      ground (arith, count-above key (suc k) hi q r h.1, nat_eq_iff key k)

  -- At most one row stands under a key.
  pub count-key :
      (key lo hi : ℕ) (q : ℕ → A → Bool) (r : Rows ℕ A)
      → Rising lo r hi
      → count (λ k a. q k a && key == k) r ≤ 1
  count-key key lo hi q [] h = omega arith
  count-key key lo hi q ((k, a) ∷ r) h = ground (
    arith,
    count-key key (suc k) hi q r h.1,
    count-above key (suc k) hi q r h.1,
    nat_eq_iff key k,
  )

  pub count-le :
      (p q : ℕ → A → Bool) (r : Rows ℕ A)
      → ((k : ℕ) (a : A) → p k a ≡ true → q k a ≡ true)
      → count p r ≤ count q r
  count-le p q [] h = omega arith
  count-le p q ((k, a) ∷ r) h = ground (arith, h k a, count-le p q r h)

  pub length-select : (p : ℕ → A → Bool) (r : Rows ℕ A) → length (select p r) ≡ count p r
  length-select p [] = refl
  length-select p ((k, a) ∷ r) = ground (arith, length-select p r)

  count-write-Above :
      (q : ℕ → A → Bool) (k : ℕ) (a : A) (r : Rows ℕ A)
      → Above k r
      → count q (write k a r) ≡ count q r
  count-write-Above q k a r h = ap (count q) (write-Above k a r h)

  count-write_head :
      (q : ℕ → A → Bool) (k : ℕ) (a b : A) (r : Rows ℕ A)
      → Above k r
      → count q (write k a ((k, b) ∷ r)) + (if q k b then 1 else 0)
        ≡ count q ((k, b) ∷ r) + (if q k a then 1 else 0)
  count-write_head q k a b r h =
      subst
        (λ (t : Rows ℕ A).
          count q t + (if q k b then 1 else 0) ≡ count q ((k, b) ∷ r) + (if q k a then 1 else 0))
        (sym (write-head k b a r h)) (omega arith)

  -- Saving one row changes a count by that row alone.
  pub count-write :
      (q : ℕ → A → Bool) (lo hi k : ℕ) (a b : A) (r : Rows ℕ A)
      → Rising lo r hi
      → Elem (k, b) r
      → count q (write k a r) + (if q k b then 1 else 0) ≡ count q r + (if q k a then 1 else 0)
  count-write q lo hi k a b [] h i = absurd i
  count-write q lo hi k a b ((j, c) ∷ r) h (inl e) =
      subst
        (λ (x : ℕ × A).
          count q (write x.0 a ((j, c) ∷ r)) + (if q x.0 x.1 then 1 else 0)
          ≡ count q ((j, c) ∷ r) + (if q x.0 a then 1 else 0))
        (sym e) (count-write_head q j a c r (Rising-Above (suc j) hi j r (omega arith) h.1))
  count-write q lo hi k a b ((j, c) ∷ r) h (inr i) =
      ground (arith, count-write q (suc j) hi k a b r h.1 i, Elem-ge (suc j) hi (k, b) r h.1 i)
