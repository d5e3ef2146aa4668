-- ===== src/Text/Printed.antt =====
-- `int` reads what `str` of a number prints.
use flownexus.Prelude.{
  ℕ, zero, suc, ◌+◌, ◌-◌, ◌*◌, ◌/◌, ◌%◌, ◌<◌, ◌≡◌, refl, ap, ◌∙◌, true, false, List, [], ◌∷◌, some,
  All, ltb, nat_eq, arith, Bool-cases, inl, inr,
}
use flownexus.Prelude.Int.{pos}
use flownexus.Text.{rcons, strip, lstrip, rstrip, is_space}
use flownexus.Text.Number.{is_digit, digits_from, digits, plus, signed, int_codes, decimal, str_int}

abbrev pub Digit : ℕ → Type 0
Digit c = is_digit c ≡ true

Digit-no_space : (c : ℕ) → Digit c → is_space c ≡ false
unfolding is_space
Digit-no_space c h = ground arith

digits_from-step :
    (n c : ℕ) (s : List ℕ) → Digit c → digits_from n (c ∷ s) ≡ digits_from (n * 10 + (c - b'0')) s
unfolding digits_from
digits_from-step n c [] h = rw h refl
digits_from-step n c (d ∷ s) h =
    let plain : nat_eq c b'_' ≡ false = ground arith in rw (plain, h) refl

digits-decimal : (f n : ℕ) (rest : List ℕ) → n < f → digits (decimal f n rest) ≡ digits_from n rest
unfolding digits decimal
digits-decimal zero n rest h = absurd (omega arith)
digits-decimal (suc f) n rest h = elim (Bool-cases (ltb n 10)) [
  | inl small ↦
      let shown : Digit (b'0' + n) = ground arith in
      let back : (b'0' + n) - b'0' ≡ n = omega arith in rw (small, shown, back) refl
  | inr large ↦
      let fewer : n / 10 < f = ground arith in
      let shown : Digit (b'0' + n % 10) = ground arith in
      let back : n / 10 * 10 + ((b'0' + n % 10) - b'0') ≡ n = omega arith in
      rw large (
        digits-decimal f (n / 10) ((b'0' + n % 10) ∷ rest) fewer
        ∙ digits_from-step (n / 10) (b'0' + n % 10) rest shown
        ∙ ap (λ m. digits_from m rest) back)
]

decimal-Digit : (f n : ℕ) (rest : List ℕ) → n < f → All Digit rest → All Digit (decimal f n rest)
unfolding decimal
decimal-Digit zero n rest h all_digits = absurd (omega arith)
decimal-Digit (suc f) n rest h all_digits = elim (Bool-cases (ltb n 10)) [
  | inl small ↦ rw small (ground arith, all_digits)
  | inr large ↦
      let fewer : n / 10 < f = ground arith in
      rw large (decimal-Digit f (n / 10) ((b'0' + n % 10) ∷ rest) fewer (ground arith, all_digits))
]

rstrip-Digit : (s : List ℕ) → All Digit s → rstrip s ≡ s
unfolding rstrip
rstrip-Digit [] h = refl
rstrip-Digit (c ∷ s) (d, h) = rw (rstrip-Digit s h) (last c s d)
  where
    last : (c : ℕ) (s : List ℕ) → Digit c → rcons c s ≡ c ∷ s
    last c [] d = rw (Digit-no_space c d) refl
    last c (e ∷ s) d = refl

strip-Digit : (s : List ℕ) → All Digit s → strip s ≡ s
unfolding strip lstrip
strip-Digit [] h = rstrip-Digit [] h
strip-Digit (c ∷ s) (d, h) = rw (Digit-no_space c d) (rstrip-Digit (c ∷ s) (d, h))

signed-Digit : (s : List ℕ) → All Digit s → signed s ≡ plus (digits s)
unfolding signed
signed-Digit [] h = refl
signed-Digit (c ∷ s) (d, h) =
    let no_minus : nat_eq c b'-' ≡ false = ground arith in
    let no_plus : nat_eq c b'+' ≡ false = ground arith in rw (no_minus, no_plus) refl

pub str_int-Digit : (n : ℕ) → All Digit (str_int (pos n))
unfolding str_int
str_int-Digit n = decimal-Digit (suc n) n [] (omega arith) tt

read_back : (s : List ℕ) → All Digit s → int_codes s ≡ plus (digits s)
unfolding int_codes
read_back s h = rw (strip-Digit s h) (signed-Digit s h)

digits-str_int : (n : ℕ) → digits (str_int (pos n)) ≡ some n
unfolding str_int digits_from
digits-str_int n = digits-decimal (suc n) n [] (omega arith)

pub int_codes-str_int : (n : ℕ) → int_codes (str_int (pos n)) ≡ some (pos n)
int_codes-str_int n = read_back (str_int (pos n)) (str_int-Digit n) ∙ ap plus (digits-str_int n)
