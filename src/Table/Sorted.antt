-- ===== src/Table/Sorted.antt =====
-- What `filter`, `order_by` and `first` give: the rows that pass, in order, and the least of them.
use flownexus.Prelude.{
  ◌≡◌, refl, Bool, true, false, Option, none, some, List, [], ◌∷◌, ◌⊎◌, inl, inr, arith, Bool-cases,
  sort_by, insert_by, if◌then◌else◌, All, filter,
}
use flownexus.Table.Search.{Elem}

-- A test that may serve as an order: total and transitive.
pub record IsOrder {A : Type 0} (le : A → A → Bool) : Type 0 where
  pub total : (x y : A) → le x y ≡ false → le y x ≡ true
  pub trans : (x y z : A) → le x y ≡ true → le y z ≡ true → le x z ≡ true

-- `order_by(a, b)`
abbrev pub then_by : {A : Type 0} → (A → A → Bool) → (A → A → Bool) → A → A → Bool
then_by le next x y = if le x y then (if le y x then next x y else true) else false

pub then_by-IsOrder :
    {A : Type 0} {le next : A → A → Bool} → IsOrder le → IsOrder next → IsOrder (then_by le next)
then_by-IsOrder {A} {le} {next} o p = record {
  total = λ x y h. ground (arith, o.total x y, p.total x y);
  trans = λ x y z h k. ground (arith, o.trans x y z, o.trans y z x, o.trans z x y, p.trans x y z);
}

pub IsOrder-refl : {A : Type 0} {le : A → A → Bool} → IsOrder le → (x : A) → le x x ≡ true
IsOrder-refl {A} {le} o x = elim (Bool-cases (le x x)) [ inl e ↦ e | inr e ↦ o.total x x e ]

-- Rows that the first order does not tell apart are in the second.
pub then_by_tie :
    {A : Type 0} (le next : A → A → Bool) (x y : A)
    → le x y ≡ true
    → le y x ≡ true
    → then_by le next x y ≡ next x y
then_by_tie le next x y h k = rw (h, k) refl

-- An order of what a function reads from a row.
pub on-IsOrder :
    {A B : Type 0} (f : A → B) {le : B → B → Bool} → IsOrder le → IsOrder (λ x y. le (f x) (f y))
on-IsOrder f o = record {
  total = λ x y. o.total (f x) (f y);
  trans = λ x y z. o.trans (f x) (f y) (f z);
}

abbrev pub first_of : {A : Type 0} → (A → Bool) → List A → Option A
first_of p [] = none
first_of p (x ∷ xs) = let rest = first_of p xs in if p x then some x else rest

module _ {A : Type 0} where
  pub Elem-first_of :
      (p : A → Bool) (x : A) (xs : List A) → first_of p xs ≡ some x → Elem x xs × (p x ≡ true)
  Elem-first_of p x [] h = cc
  Elem-first_of p x (y ∷ ys) h = elim (Bool-cases (p y)) [
    | inl e ↦ found e (rw e at h)
    | inr e ↦ let (i, q) = Elem-first_of p x ys (rw e at h) in (inr i, q)
  ]
    where
      found : p y ≡ true → ◌≡◌ {A = Option A} (some y) (some x) → Elem x (y ∷ ys) × (p x ≡ true)
      found e s = let same : x ≡ y = cc in (inl same, rw same e)

  pub first_of-none :
      (p : A → Bool) (x : A) (xs : List A) → first_of p xs ≡ none → Elem x xs → p x ≡ false
  first_of-none p x [] h i = absurd i
  first_of-none p x (y ∷ ys) h i = elim (Bool-cases (p y)) [
    | inl e ↦ let bad : ◌≡◌ {A = Option A} (some y) none = rw e at h in cc
    | inr e ↦ elim i [ inl same ↦ rw same e | inr later ↦ first_of-none p x ys (rw e at h) later ]
  ]

  pub Elem-filter :
      (p : A → Bool) (x : A) (xs : List A) → Elem x (filter p xs) → Elem x xs × (p x ≡ true)
  Elem-filter p x [] h = absurd h
  Elem-filter p x (y ∷ ys) h = elim (Bool-cases (p y)) [
    | inl e ↦ kept e (rw e at h) (Elem-filter p x ys)
    | inr e ↦ let (i, q) = Elem-filter p x ys (rw e at h) in (inr i, q)
  ]
    where
      kept :
          p y ≡ true
          → Elem x (y ∷ filter p ys)
          → (Elem x (filter p ys) → Elem x ys × (p x ≡ true))
          → Elem x (y ∷ ys) × (p x ≡ true)
      kept e (inl same) go = (inl same, rw same e)
      kept e (inr i) go = let (j, q) = go i in (inr j, q)

  pub filter-Elem :
      (p : A → Bool) (x : A) (xs : List A) → Elem x xs → p x ≡ true → Elem x (filter p xs)
  filter-Elem p x [] h q = absurd h
  filter-Elem p x (y ∷ ys) (inl e) q = let here : p y ≡ true = rw e at q in rw here (inl e)
  filter-Elem p x (y ∷ ys) (inr h) q = elim (Bool-cases (p y)) [
    | inl e ↦ rw e (inr (filter-Elem p x ys h q))
    | inr e ↦ rw e (filter-Elem p x ys h q)
  ]

  insert_by-Elem :
      (le : A → A → Bool) (x y : A) (ys : List A) → (x ≡ y) ⊎ Elem x ys → Elem x (insert_by le y ys)
  insert_by-Elem le x y [] h = h
  insert_by-Elem le x y (z ∷ zs) h = elim (Bool-cases (le y z)) [
    | inl before ↦ rw before h
    | inr after ↦ rw after (swapped h (insert_by-Elem le x y zs))
  ]
    where
      swapped :
          (x ≡ y) ⊎ Elem x (z ∷ zs)
          → ((x ≡ y) ⊎ Elem x zs → Elem x (insert_by le y zs))
          → Elem x (z ∷ insert_by le y zs)
      swapped (inl e) go = inr (go (inl e))
      swapped (inr (inl e)) go = inl e
      swapped (inr (inr e)) go = inr (go (inr e))

  pub sort_by-Elem : (le : A → A → Bool) (x : A) (xs : List A) → Elem x xs → Elem x (sort_by le xs)
  sort_by-Elem le x [] h = h
  sort_by-Elem le x (y ∷ ys) (inl e) = insert_by-Elem le x y (sort_by le ys) (inl e)
  sort_by-Elem le x (y ∷ ys) (inr h) =
      insert_by-Elem le x y (sort_by le ys) (inr (sort_by-Elem le x ys h))

  module _ (le : A → A → Bool) where
    abbrev pub Below : A → List A → Type 0
    Below x = All (λ y. le x y ≡ true)

    abbrev pub IsSorted : List A → Type 0
    IsSorted [] = Unit
    IsSorted (x ∷ xs) = Below x xs × IsSorted xs

    module _ (o : IsOrder le) where
      Below-trans : (x y : A) (ys : List A) → le x y ≡ true → Below y ys → Below x ys
      Below-trans x y [] h b = tt
      Below-trans x y (z ∷ zs) h (c, b) = (o.trans x y z h c, Below-trans x y zs h b)

      Below-insert_by :
          (x y : A) (ys : List A) → le x y ≡ true → Below x ys → Below x (insert_by le y ys)
      Below-insert_by x y [] h b = (h, tt)
      Below-insert_by x y (z ∷ zs) h (c, b) = elim (Bool-cases (le y z)) [
        | inl before ↦ rw before (h, (c, b))
        | inr after ↦ rw after (c, Below-insert_by x y zs h b)
      ]

      insert_by-IsSorted : (x : A) (xs : List A) → IsSorted xs → IsSorted (insert_by le x xs)
      insert_by-IsSorted x [] s = (tt, tt)
      insert_by-IsSorted x (y ∷ ys) (b, s) = elim (Bool-cases (le x y)) [
        | inl before ↦ rw before ((before, Below-trans x y ys before b), (b, s))
        | inr after ↦
            rw after (Below-insert_by y x ys (o.total x y after) b, insert_by-IsSorted x ys s)
      ]

      pub sort_by-IsSorted : (xs : List A) → IsSorted (sort_by le xs)
      sort_by-IsSorted [] = tt
      sort_by-IsSorted (x ∷ xs) = insert_by-IsSorted x (sort_by le xs) (sort_by-IsSorted xs)

      Below-Elem : (x y : A) (ys : List A) → Below x ys → Elem y ys → le x y ≡ true
      Below-Elem x y [] b i = absurd i
      Below-Elem x y (z ∷ zs) (c, b) (inl e) = rw e c
      Below-Elem x y (z ∷ zs) (c, b) (inr i) = Below-Elem x y zs b i

      -- Of those that pass a test, the first is the least.
      least_passes :
          (p : A → Bool) (x y : A) (xs : List A)
          → IsSorted xs
          → first_of p xs ≡ some x
          → Elem y xs
          → p y ≡ true
          → (y ≡ x) ⊎ (le x y ≡ true)
      least_passes p x y [] s f i q = absurd i
      least_passes p x y (z ∷ zs) (b, s) f i q = elim (Bool-cases (p z)) [
        | inl e ↦ here e (rw e at f) i
        | inr e ↦ elim i [
          | inl same ↦ let bad : p z ≡ true = rw (← same) q in cc
          | inr later ↦ least_passes p x y zs s (rw e at f) later q
        ]
      ]
        where
          here :
              p z ≡ true
              → ◌≡◌ {A = Option A} (some z) (some x)
              → Elem y (z ∷ zs)
              → (y ≡ x) ⊎ (le x y ≡ true)
          here e f' (inl same) = let zx : z ≡ x = cc in inl (rw (← zx) same)
          here e f' (inr later) = let zx : z ≡ x = cc in inr (rw (← zx) (Below-Elem z y zs b later))

      -- `order_by(…)` and then the first that passes a test: every other that passes comes after.
      pub first_of-sort_by :
          (p : A → Bool) (x y : A) (xs : List A)
          → first_of p (sort_by le xs) ≡ some x
          → Elem y xs
          → p y ≡ true
          → (y ≡ x) ⊎ (le x y ≡ true)
      first_of-sort_by p x y xs f i q =
          least_passes p x y (sort_by le xs) (sort_by-IsSorted xs) f (sort_by-Elem le y xs i) q
