-- ===== src/Text/Number.antt =====
-- `int(text)`: white space around, one sign, and decimal digits with single underscores between.
use flownexus.Prelude.{
  ◌≡◌, refl, ℕ, zero, suc, ◌+◌, ◌-◌, ◌*◌, ◌/◌, ◌%◌, ltb, Bool, ◌&&◌, List, [], ◌∷◌, Option, none,
  some, leb, nat_eq, if◌then◌else◌, String,
}
use flownexus.Prelude.Int.{ℤ, pos, negsuc}
use flownexus.Text.{codes, strip}

abbrev pub is_digit : ℕ → Bool
is_digit c = leb b'0' c && leb c b'9'

-- The digits after the first: `n` is the value so far.
unfoldable pub digits_from : ℕ → List ℕ → Option ℕ
digits_from n [] = some n
digits_from n (c ∷ []) = if is_digit c then some (n * 10 + (c - b'0')) else none
digits_from n (c ∷ d ∷ s) =
    let skip = digits_from (n * 10 + (d - b'0')) s in
    let next = digits_from (n * 10 + (c - b'0')) (d ∷ s) in
    if nat_eq c b'_' && is_digit d then skip else if is_digit c then next else none

unfoldable pub digits : List ℕ → Option ℕ
unfolding digits_from
digits [] = none
digits (c ∷ s) = if is_digit c then digits_from (c - b'0') s else none

abbrev pub negate : ℕ → ℤ
negate zero = pos zero
negate (suc n) = negsuc n

abbrev pub plus : Option ℕ → Option ℤ
plus none = none
plus (some n) = some (pos n)

abbrev minus : Option ℕ → Option ℤ
minus none = none
minus (some n) = some (negate n)

unfoldable pub signed : List ℕ → Option ℤ
unfolding digits
signed [] = none
signed (c ∷ s) =
    if nat_eq c b'-'
    then minus (digits s)
    else if nat_eq c b'+'
    then plus (digits s)
    else plus (digits (c ∷ s))

-- `int(text)`; `none` is `ValueError`.
unfoldable pub int_codes : List ℕ → Option ℤ
unfolding signed strip
int_codes s = signed (strip s)

unfoldable pub int : String → Option ℤ
unfolding int_codes
int text = int_codes (codes text)

int_spaces : int " 1_000 " ≡ some (pos 1000)
unfolding int
int_spaces = refl

int_negative : int "-7" ≡ some (negsuc 6)
unfolding int
int_negative = refl

int_refuses : (int "1__0" ≡ none) × (int "12a" ≡ none) × (int "_1" ≡ none) × (int "" ≡ none)
unfolding int
int_refuses = (refl, refl, refl, refl)

-- `str(n)` of an integer. `suc n` rounds are enough: each divides by ten.
unfoldable pub decimal : ℕ → ℕ → List ℕ → List ℕ
decimal zero n rest = rest
decimal (suc f) n rest =
    let more = decimal f (n / 10) ((b'0' + n % 10) ∷ rest) in
    if ltb n 10 then (b'0' + n) ∷ rest else more

unfoldable pub str_int : ℤ → List ℕ
unfolding decimal
str_int (pos n) = decimal (suc n) n []
str_int (negsuc n) = b'-' ∷ decimal (suc (suc n)) (suc n) []

str_int_test : str_int (pos 10300) ≡ codes "10300"
unfolding str_int
str_int_test = refl
