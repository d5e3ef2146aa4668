-- ===== src/Table/Search.antt =====
-- Rows that a queryset finds are rows of the table, and pass its test.
use flownexus.Prelude.{
  ℕ, suc, ◌≤◌, ◌≡◌, refl, ap, ◌⊎◌, inl, inr, Bool, true, Option, some, List, [], ◌∷◌, ◌==◌, nat_key,
  arith, nat_eq_iff, Bool-cases, sort_by, insert_by, head, any, map,
}
use flownexus.Table.{Rows, Table, select, first, exists, find, get}
use flownexus.Table.Laws.{Rising, IsValid}

abbrev pub Elem : {A : Type 0} → A → List A → Type 0
Elem x [] = ⊥
Elem x (y ∷ ys) = (x ≡ y) ⊎ Elem x ys

module _ {A : Type 0} where
  Elem-swap :
      (x y z : A) (xs ys : List A)
      → (Elem x xs → (x ≡ y) ⊎ Elem x ys)
      → Elem x (z ∷ xs)
      → (x ≡ y) ⊎ Elem x (z ∷ ys)
  Elem-swap x y z xs ys rest (inl e) = inr (inl e)
  Elem-swap x y z xs ys rest (inr r) = elim (rest r) [ inl e ↦ inl e | inr s ↦ inr (inr s) ]

  Elem-insert_by :
      (le : A → A → Bool) (x y : A) (ys : List A) → Elem x (insert_by le y ys) → (x ≡ y) ⊎ Elem x ys
  Elem-insert_by le x y [] h = h
  Elem-insert_by le x y (z ∷ zs) h = elim (Bool-cases (le y z)) [
    | inl before ↦ rw before at h
    | inr after ↦ Elem-swap x y z (insert_by le y zs) zs (Elem-insert_by le x y zs) (rw after at h)
  ]

  pub Elem-sort_by : (le : A → A → Bool) (x : A) (xs : List A) → Elem x (sort_by le xs) → Elem x xs
  Elem-sort_by le x [] h = h
  Elem-sort_by le x (y ∷ ys) h = elim (Elem-insert_by le x y (sort_by le ys) h) [
    | inl e ↦ inl e
    | inr r ↦ inr (Elem-sort_by le x ys r)
  ]

  pub Elem-head : (x : A) (xs : List A) → head xs ≡ some x → Elem x xs
  Elem-head x [] h = cc
  Elem-head x (y ∷ ys) h = inl (cc)

  pub Elem-map :
      {B : Type 0} (f : A → B) (y : B) (xs : List A)
      → Elem y (map f xs)
      → (x : A) × Elem x xs × (y ≡ f x)
  Elem-map f y (x ∷ xs) (inl e) = (x, inl refl, e)
  Elem-map f y (x ∷ xs) (inr h) = let (z, i, e) = Elem-map f y xs h in (z, inr i, e)
  Elem-map f y [] h = absurd h

  pub any_sound :
      (p : A → Bool) (xs : List A) → any p xs ≡ true → (x : A) × Elem x xs × (p x ≡ true)
  any_sound p [] h = cc
  any_sound p (x ∷ xs) h = elim (Bool-cases (p x)) [
    | inl e ↦ (x, inl refl, e)
    | inr e ↦ let (y, i, q) = any_sound p xs (rw e at h) in (y, inr i, q)
  ]

module _ {K A : Type 0} where
  Elem-kept :
      (p : K → A → Bool) (x : K × A) (k : K) (a : A) (s r : Rows K A)
      → (Elem x s → Elem x r × (p x.0 x.1 ≡ true))
      → p k a ≡ true
      → Elem x ((k, a) ∷ s)
      → Elem x ((k, a) ∷ r) × (p x.0 x.1 ≡ true)
  Elem-kept p x k a s r rest e (inl same) = (inl same, rw same e)
  Elem-kept p x k a s r rest e (inr later) = let (i, q) = rest later in (inr i, q)

  pub Elem-select :
      (p : K → A → Bool) (x : K × A) (r : Rows K A)
      → Elem x (select p r)
      → Elem x r × (p x.0 x.1 ≡ true)
  Elem-select p x [] h = absurd h
  Elem-select p x ((k, a) ∷ r) h = elim (Bool-cases (p k a)) [
    | inl e ↦ Elem-kept p x k a (select p r) r (Elem-select p x r) e (rw e at h)
    | inr e ↦ let (i, q) = Elem-select p x r (rw e at h) in (inr i, q)
  ]

  pub select-Elem :
      (p : K → A → Bool) (x : K × A) (r : Rows K A)
      → Elem x r
      → p x.0 x.1 ≡ true
      → Elem x (select p r)
  select-Elem p x [] h q = absurd h
  select-Elem p x ((k, a) ∷ r) (inl e) q = let here : p k a ≡ true = rw e at q in rw here (inl e)
  select-Elem p x ((k, a) ∷ r) (inr h) q = elim (Bool-cases (p k a)) [
    | inl e ↦ rw e (inr (select-Elem p x r h q))
    | inr e ↦ rw e (select-Elem p x r h q)
  ]

  pub Elem-first :
      (p : K → A → Bool) (x : K × A) (r : Rows K A)
      → first p r ≡ some x
      → Elem x r × (p x.0 x.1 ≡ true)
  Elem-first p x [] h = cc
  Elem-first p x ((k, a) ∷ r) h = elim (Bool-cases (p k a)) [
    | inl e ↦ found e (rw e at h)
    | inr e ↦ let (i, q) = Elem-first p x r (rw e at h) in (inr i, q)
  ]
    where
      found :
          p k a ≡ true
          → ◌≡◌ {A = Option (K × A)} (some (k, a)) (some x)
          → Elem x ((k, a) ∷ r) × (p x.0 x.1 ≡ true)
      found e s = let same : x ≡ (k, a) = cc in (inl same, rw same e)

  pub exists-intro :
      (p : K → A → Bool) (x : K × A) (r : Rows K A)
      → Elem x r
      → p x.0 x.1 ≡ true
      → exists p r ≡ true
  exists-intro p x [] h q = absurd h
  exists-intro p x ((k, a) ∷ r) (inl e) q = let here : p k a ≡ true = rw e at q in rw here
  exists-intro p x ((k, a) ∷ r) (inr h) q = ground (arith, exists-intro p x r h q)

  pub exists_sound :
      (p : K → A → Bool) (r : Rows K A)
      → exists p r ≡ true
      → (x : K × A) × Elem x r × (p x.0 x.1 ≡ true)
  exists_sound p [] h = cc
  exists_sound p ((k, a) ∷ r) h = elim (Bool-cases (p k a)) [
    | inl e ↦ ((k, a), inl refl, e)
    | inr e ↦ let (y, i, q) = exists_sound p r (rw e at h) in (y, inr i, q)
  ]

module _ {A : Type 0} where
  pub Elem-ge : (lo hi : ℕ) (x : ℕ × A) (r : Rows ℕ A) → Rising lo r hi → Elem x r → lo ≤ x.0
  Elem-ge lo hi x [] v h = absurd h
  Elem-ge lo hi x ((k, a) ∷ r) v (inl e) =
      let same : x.0 ≡ k = ap (λ (y : ℕ × A). y.0) e in omega arith
  Elem-ge lo hi x ((k, a) ∷ r) v (inr h) = omega (arith, Elem-ge (suc k) hi x r v.1 h)

  -- A key stands in one row.
  find-Elem :
      (lo hi : ℕ) (x : ℕ × A) (r : Rows ℕ A) → Rising lo r hi → Elem x r → find x.0 r ≡ some x.1
  find-Elem lo hi x [] v h = absurd h
  find-Elem lo hi x ((k, a) ∷ r) v (inl e) =
      let key : x.0 ≡ k = ap (λ (y : ℕ × A). y.0) e in
      let row : x.1 ≡ a = ap (λ (y : ℕ × A). y.1) e in rw row (ground arith)
  find-Elem lo hi x ((k, a) ∷ r) v (inr h) =
      ground (arith, find-Elem (suc k) hi x r v.1 h, Elem-ge (suc k) hi x r v.1 h)

  pub get-Elem : (x : ℕ × A) (t : Table A) → IsValid t → Elem x t.rows → get x.0 t ≡ some x.1
  get-Elem x t v h = find-Elem 0 t.next_id x t.rows v h

  find_sound : (k : ℕ) (a : A) (r : Rows ℕ A) → find k r ≡ some a → Elem (k, a) r
  find_sound k a [] h = cc
  find_sound k a ((j, b) ∷ r) h = elim (Bool-cases (j == k)) [
    | inl same ↦ inl (found same (rw same at h))
    | inr other ↦ inr (find_sound k a r (rw other at h))
  ]
    where
      found : (j == k) ≡ true → ◌≡◌ {A = Option A} (some b) (some a) → ◌≡◌ {A = ℕ × A} (k, a) (j, b)
      found same e = ground (arith, nat_eq_iff j k)

  pub Elem-get : (k : ℕ) (a : A) (t : Table A) → get k t ≡ some a → Elem (k, a) t.rows
  Elem-get k a t h = find_sound k a t.rows h
