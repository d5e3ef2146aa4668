-- ===== src/Frontend/Readings/Labels.antt =====
-- Columns of the event sheet are read as they were written.
use flownexus.Prelude.{
  ℕ, ◌≡◌, refl, ap, ◌∙◌, true, false, Option, none, some, List, [], ◌∷◌, ◌++◌, All, nat_eq, arith,
}
use flownexus.Prelude.Int.{pos}
use flownexus.Text.Number.{str_int}
use flownexus.Text.Printed.{Digit, str_int-Digit, int_codes-str_int}
use flownexus.Frontend.Readings.Cells.{
  Name, ResData, held, indexed, last_bracket, ends_in_bracket, without_last, item, scalar, cell_at,
  cell,
}

abbrev Closed : ℕ → Type 0
Closed c = nat_eq c b'[' ≡ false

no_bracket : (s : List ℕ) → All Closed s → last_bracket s ≡ none
unfolding last_bracket
no_bracket [] h = refl
no_bracket (c ∷ s) (e, h) = rw (no_bracket s h, e) refl

last_bracket-append : (s t : List ℕ) → All Closed t → last_bracket (s ++ b'[' ∷ t) ≡ some (s, t)
unfolding last_bracket
last_bracket-append [] t h = rw (no_bracket t h) refl
last_bracket-append (c ∷ s) t h = rw (last_bracket-append s t h) refl

ends-append : (c : ℕ) (s t : List ℕ) → ends_in_bracket (s ++ c ∷ t) ≡ ends_in_bracket (c ∷ t)
ends-append c [] t = refl
ends-append c (d ∷ []) t = refl
ends-append c (d ∷ e ∷ s) t = ends-append c (e ∷ s) t

without_last-append : (c : ℕ) (s : List ℕ) → without_last (s ++ c ∷ []) ≡ s
without_last-append c [] = refl
without_last-append c (d ∷ []) = refl
without_last-append c (d ∷ e ∷ s) = ap (λ (t : List ℕ). d ∷ t) (without_last-append c (e ∷ s))

digits_closed : (s : List ℕ) → All Digit s → All Closed (s ++ b']' ∷ [])
digits_closed [] h = (refl, tt)
digits_closed (c ∷ s) (d, h) = (ground arith, digits_closed s h)

module _ (d : ResData) where
  pub cell-scalar : (col : Name) → ends_in_bracket col ≡ false → cell d col ≡ scalar (held col d)
  unfolding cell
  cell-scalar col h = go (last_bracket col)
    where
      go : (o : Option (List ℕ × List ℕ)) → cell_at col d o ≡ scalar (held col d)
      go none = refl
      go (some (before, after)) = rw h refl

  pub cell-indexed : (name : Name) (i : ℕ) → cell d (indexed name i) ≡ item (pos i) (held name d)
  unfolding cell
  cell-indexed name i =
      let ds = str_int (pos i) in
      let split = last_bracket-append name (ds ++ b']' ∷ []) (digits_closed ds (str_int-Digit i)) in
      let closes : ends_in_bracket (indexed name i) ≡ true =
        ends-append b'[' name (ds ++ b']' ∷ []) ∙ ends-append b']' (b'[' ∷ ds) [] in
      rw (split, closes, without_last-append b']' ds, int_codes-str_int i) refl
