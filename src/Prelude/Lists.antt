-- ===== src/Prelude/Lists.antt =====
-- Lists measured by native numbers and searched by Boolean tests. The library's `length` stands on
-- another ℕ, and its `any` and `all` do not compute.
use Prim.Native.Nat.{ℕ, zero, suc, ◌+◌, ◌≤◌}
use mathlib.Core.Path.{◌≡◌, refl}
use mathlib.Core.Logic.{inl, inr}
use mathlib.Core.Bool.{Bool, true, false, ◌||◌}
use mathlib.Core.Option.{Option, none, some}
use mathlib.Core.List.{List, [], ◌∷◌, ◌++◌}
use native.Mathlib.Omega.{arith}
use flownexus.Prelude.Tests.{Bool-cases, if◌then◌else◌}

module _ {ℓ} {A : Type ℓ} where
  abbrev pub length : List A → ℕ
  length [] = 0
  length (x ∷ xs) = suc (length xs)

  abbrev pub filter : (A → Bool) → List A → List A
  filter p [] = []
  filter p (x ∷ xs) = let rest = filter p xs in if p x then x ∷ rest else rest

  abbrev pub any : (A → Bool) → List A → Bool
  any p [] = false
  any p (x ∷ xs) = p x || any p xs

  abbrev pub get_elem? : List A → ℕ → Option A
  get_elem? [] i = none
  get_elem? (x ∷ xs) zero = some x
  get_elem? (x ∷ xs) (suc i) = get_elem? xs i

  abbrev pub take : ℕ → List A → List A
  take zero xs = []
  take (suc n) [] = []
  take (suc n) (x ∷ xs) = x ∷ take n xs

  abbrev pub replicate : ℕ → A → List A
  replicate zero x = []
  replicate (suc n) x = x ∷ replicate n x

  -- Every element satisfies `P`.
  abbrev pub All {κ} : (A → Type κ) → List A → Type κ
  All P [] = Unit
  All P (x ∷ xs) = P x × All P xs

  pub length-append : (xs ys : List A) → length (xs ++ ys) ≡ length xs + length ys
  length-append [] ys = omega arith
  length-append (x ∷ xs) ys = omega (arith, length-append xs ys)

  pub filter-append :
      (p : A → Bool) (xs ys : List A) → filter p (xs ++ ys) ≡ filter p xs ++ filter p ys
  filter-append p [] ys = refl
  filter-append p (x ∷ xs) ys = ground (arith, filter-append p xs ys)

  pub length-filter-le : (p : A → Bool) (xs : List A) → length (filter p xs) ≤ length xs
  length-filter-le p [] = omega arith
  length-filter-le p (x ∷ xs) = ground (arith, length-filter-le p xs)

module _ {ℓ} {A : Type ℓ} where
  -- A stable sort: `le x y` puts `x` before `y`.
  abbrev pub insert_by : (A → A → Bool) → A → List A → List A
  insert_by le x [] = x ∷ []
  insert_by le x (y ∷ ys) = let rest = insert_by le x ys in if le x y then x ∷ y ∷ ys else y ∷ rest

  abbrev pub sort_by : (A → A → Bool) → List A → List A
  sort_by le [] = []
  sort_by le (x ∷ xs) = insert_by le x (sort_by le xs)

  abbrev pub head : List A → Option A
  head [] = none
  head (x ∷ xs) = some x

module _ {A B : Type 0} (hit : A → Bool) (value : A → B) where
  -- The value at the last hit, or the one from before.
  abbrev pub last_of : List A → Option B → Option B
  last_of [] before = before
  last_of (x ∷ xs) before = last_of xs (if hit x then some (value x) else before)

  pub last_of_missed :
      (xs : List A) (before : Option B) → any hit xs ≡ false → last_of xs before ≡ before
  last_of_missed [] before h = refl
  last_of_missed (x ∷ xs) before h =
      let away : hit x ≡ false = ground arith in
      let rest : any hit xs ≡ false = ground arith in rw away (last_of_missed xs before rest)

  pub last_of_hit : (xs : List A) (o p : Option B) → any hit xs ≡ true → last_of xs o ≡ last_of xs p
  last_of_hit [] o p h = cc
  last_of_hit (x ∷ xs) o p h = elim (Bool-cases (hit x)) [
    | inl here ↦ rw here refl
    | inr away ↦ let rest : any hit xs ≡ true = ground arith in rw away (last_of_hit xs o p rest)
  ]

  pub last_of_again : (xs : List A) (o : Option B) → last_of xs (last_of xs o) ≡ last_of xs o
  last_of_again xs o = elim (Bool-cases (any hit xs)) [
    | inl h ↦ last_of_hit xs (last_of xs o) o h
    | inr h ↦ last_of_missed xs (last_of xs o) h
  ]
