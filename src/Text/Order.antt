-- ===== src/Text/Order.antt =====
-- The orders that queries use are total and transitive.
use flownexus.Prelude.{ℕ, ◌≡◌, refl, true, false, List, [], ◌∷◌, arith, leb}
use flownexus.Prelude.Int.{ℤ, pos, negsuc, leb_ℤ}
use flownexus.Text.{codes, codes_le, text_le}
use flownexus.Table.Sorted.{IsOrder}

codes_le_total : (s t : List ℕ) → codes_le s t ≡ false → codes_le t s ≡ true
unfolding codes_le
codes_le_total [] t h = cc
codes_le_total (c ∷ s) [] h = refl
codes_le_total (c ∷ s) (d ∷ t) h = ground (arith, codes_le_total s t)

codes_le_trans : (s t u : List ℕ) → codes_le s t ≡ true → codes_le t u ≡ true → codes_le s u ≡ true
unfolding codes_le
codes_le_trans [] t u h k = refl
codes_le_trans (c ∷ s) [] u h k = cc
codes_le_trans (c ∷ s) (d ∷ t) [] h k = cc
codes_le_trans (c ∷ s) (d ∷ t) (e ∷ u) h k = ground (arith, codes_le_trans s t u)

pub text_le-IsOrder : IsOrder text_le
text_le-IsOrder = record {
  total = λ a b. codes_le_total (codes a) (codes b);
  trans = λ a b c. codes_le_trans (codes a) (codes b) (codes c);
}

leb_ℤ_total : (a b : ℤ) → leb_ℤ a b ≡ false → leb_ℤ b a ≡ true
leb_ℤ_total (pos a) (pos b) h = ground arith
leb_ℤ_total (pos a) (negsuc b) h = ground arith
leb_ℤ_total (negsuc a) (pos b) h = ground arith
leb_ℤ_total (negsuc a) (negsuc b) h = ground arith

leb_ℤ_trans : (a b c : ℤ) → leb_ℤ a b ≡ true → leb_ℤ b c ≡ true → leb_ℤ a c ≡ true
leb_ℤ_trans (pos a) (pos b) (pos c) h k = ground arith
leb_ℤ_trans (pos a) (pos b) (negsuc c) h k = ground arith
leb_ℤ_trans (pos a) (negsuc b) (pos c) h k = ground arith
leb_ℤ_trans (pos a) (negsuc b) (negsuc c) h k = ground arith
leb_ℤ_trans (negsuc a) (pos b) (pos c) h k = ground arith
leb_ℤ_trans (negsuc a) (pos b) (negsuc c) h k = ground arith
leb_ℤ_trans (negsuc a) (negsuc b) (pos c) h k = ground arith
leb_ℤ_trans (negsuc a) (negsuc b) (negsuc c) h k = ground arith

pub leb_ℤ-IsOrder : IsOrder leb_ℤ
leb_ℤ-IsOrder = record { total = leb_ℤ_total; trans = leb_ℤ_trans }

-- The larger number first.
pub descending-IsOrder : IsOrder (λ (a b : ℕ). leb b a)
descending-IsOrder = record { total = λ a b h. ground arith; trans = λ a b c h k. ground arith }
