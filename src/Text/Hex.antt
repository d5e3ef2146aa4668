-- ===== src/Text/Hex.antt =====
-- `bytes.fromhex(text)`: pairs of hexadecimal digits, with ASCII white space between pairs.
use flownexus.Prelude.{
  ℕ, ◌+◌, ◌-◌, ◌*◌, ◌≡◌, refl, Bool, ◌&&◌, ◌||◌, List, [], ◌∷◌, Option, none, some, leb, nat_eq,
  if◌then◌else◌, String,
}
use flownexus.Text.{codes}

unfoldable pub hex_digit : ℕ → Option ℕ
hex_digit c =
    if leb b'0' c && leb c b'9'
    then some (c - b'0')
    else if leb b'a' c && leb c b'f'
    then some (c - b'a' + 10)
    else if leb b'A' c && leb c b'F'
    then some (c - b'A' + 10)
    else none

abbrev pub is_ascii_space : ℕ → Bool
is_ascii_space c = leb 9 c && leb c 13 || nat_eq c 32

abbrev pub push_byte : Option ℕ → Option ℕ → Option (List ℕ) → Option (List ℕ)
push_byte (some h) (some l) (some rest) = some ((h * 16 + l) ∷ rest)
push_byte _ _ _ = none

unfoldable pub from_hex : List ℕ → Option (List ℕ)
unfolding hex_digit
from_hex [] = some []
from_hex (c ∷ []) = if is_ascii_space c then some [] else none
from_hex (c ∷ d ∷ s) =
    let skip = from_hex (d ∷ s) in
    let pair = push_byte (hex_digit c) (hex_digit d) (from_hex s) in
    if is_ascii_space c then skip else pair

-- `bytes.fromhex(text)`; `none` is `ValueError`.
unfoldable pub fromhex : String → Option (List ℕ)
unfolding from_hex
fromhex text = from_hex (codes text)

fromhex_test : fromhex "0A ff" ≡ some (10 ∷ 255 ∷ [])
unfolding fromhex
fromhex_test = refl
