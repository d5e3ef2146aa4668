-- ===== src/Text.antt =====
-- Python's text functions that the source calls: `str.strip`, `str.replace`, `str.lower`, `int` and
-- `bytes.fromhex`, over code points. `lower` maps ASCII letters alone, and `int` reads ASCII digits.
pub mod Number
pub mod Hex
pub mod Order
pub mod Decimal
pub mod Printed
use Prim.Native.Char.{code}
use flownexus.Prelude.{
  ℕ, ◌+◌, ◌-◌, String, Bool, ◌&&◌, ◌||◌, List, [], ◌∷◌, ◌++◌, leb, nat_eq, if◌then◌else◌, false,
  true,
}

-- The code points of a text. `String` has its own `[]` and `∷`.
abbrev pub codes : String → List ℕ
codes String.[] = []
codes (String.◌∷◌ c s) = code c ∷ codes s

-- `str.isspace` of one code point.
unfoldable pub is_space : ℕ → Bool
is_space c =
    leb 9 c && leb c 13
    || leb 28 c && leb c 32
    || nat_eq c 133
    || nat_eq c 160
    || nat_eq c 5760
    || leb 8192 c && leb c 8202
    || leb 8232 c && leb c 8233
    || nat_eq c 8239
    || nat_eq c 8287
    || nat_eq c 12288

-- `str.lstrip`
unfoldable pub lstrip : List ℕ → List ℕ
lstrip [] = []
lstrip (c ∷ s) = let rest = lstrip s in if is_space c then rest else c ∷ s

abbrev pub rcons : ℕ → List ℕ → List ℕ
rcons c [] = if is_space c then [] else c ∷ []
rcons c (d ∷ s) = c ∷ d ∷ s

-- `str.rstrip`: a character stays if something after it stays.
unfoldable pub rstrip : List ℕ → List ℕ
rstrip [] = []
rstrip (c ∷ s) = rcons c (rstrip s)

-- `str.strip`
unfoldable pub strip : List ℕ → List ℕ
unfolding lstrip rstrip is_space
strip s = rstrip (lstrip s)

-- One character of `.replace("_", "-").lower()`.
unfoldable pub canonical_char : ℕ → ℕ
canonical_char c = if nat_eq c b'_' then b'-' else if leb b'A' c && leb c b'Z' then c + 32 else c

abbrev pub same_codes : List ℕ → List ℕ → Bool
same_codes [] [] = true
same_codes (c ∷ s) (d ∷ t) = nat_eq c d && same_codes s t
same_codes _ _ = false

-- The order of texts, by code points.
unfoldable pub codes_le : List ℕ → List ℕ → Bool
codes_le [] t = true
codes_le (c ∷ s) [] = false
codes_le (c ∷ s) (d ∷ t) = let rest = codes_le s t in if nat_eq c d then rest else leb c d

abbrev pub text_le : String → String → Bool
text_le a b = codes_le (codes a) (codes b)
