-- ===== src/Text/Decimal.antt =====
-- `str(n)` of a number: its decimal digits.
use Prim.Native.String
use flownexus.Prelude.{
  ℕ, zero, suc, ◌/◌, ◌%◌, ◌≤◌, ◌≡◌, refl, ap, String, true, ltb, nat_eq, if◌then◌else◌, arith,
  Bool-cases, inl, inr,
}

-- The text of a digit.
abbrev digit : ℕ → String
digit n =
    if nat_eq n 0
    then "0"
    else if nat_eq n 1
    then "1"
    else if nat_eq n 2
    then "2"
    else if nat_eq n 3
    then "3"
    else if nat_eq n 4
    then "4"
    else if nat_eq n 5
    then "5"
    else if nat_eq n 6
    then "6"
    else if nat_eq n 7
    then "7"
    else if nat_eq n 8
    then "8"
    else "9"

-- Each round leaves a tenth, so that the number itself is enough rounds.
unfoldable decimal_within : ℕ → ℕ → String
decimal_within zero n = digit n
decimal_within (suc rounds) n =
    let more = decimal_within rounds (n / 10) in
    if ltb n 10 then digit n else String.◌++◌ more (digit (n % 10))

unfoldable pub decimal_text : ℕ → String
unfolding decimal_within
decimal_text n = decimal_within n n

within_enough : (a b n : ℕ) → n ≤ a → n ≤ b → decimal_within a n ≡ decimal_within b n
unfolding decimal_within
within_enough zero zero n h k = refl
within_enough zero (suc b) n h k = let small : ltb n 10 ≡ true = ground arith in simp small refl
within_enough (suc a) zero n h k = let small : ltb n 10 ≡ true = ground arith in simp small refl
within_enough (suc a) (suc b) n h k = elim (Bool-cases (ltb n 10)) [
  | inl small ↦ simp small refl
  | inr large ↦
      let fewer_a : n / 10 ≤ a = ground arith in
      let fewer_b : n / 10 ≤ b = ground arith in
      simp large
        (ap (λ t. String.◌++◌ t (digit (n % 10))) (within_enough a b (n / 10) fewer_a fewer_b))
]

-- The digits of a number are those of its tenth and the last one.
pub decimal_text-step :
    (n : ℕ)
    → decimal_text n
      ≡ (if ltb n 10 then digit n else String.◌++◌ (decimal_text (n / 10)) (digit (n % 10)))
unfolding decimal_text decimal_within
decimal_text-step zero = refl
decimal_text-step (suc n) = elim (Bool-cases (ltb (suc n) 10)) [
  | inl small ↦ simp small refl
  | inr large ↦
      let fewer : suc n / 10 ≤ n = ground arith in
      simp large (
        ap (λ t. String.◌++◌ t (digit (suc n % 10)))
          (within_enough n (suc n / 10) (suc n / 10) fewer (omega arith)))
]
