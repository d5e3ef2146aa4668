-- ===== src/Frontend/Readings/Cell.antt =====
-- A row of the event sheet shows what its event holds.
use flownexus.Prelude.{
  ℕ, zero, suc, ◌+◌, ◌<◌, ◌≡◌, refl, ap, sym, subst, ◌∙◌, true, false, Option, none, some, List, [],
  ◌∷◌, All, length, get_elem?, Bool-cases, inl, inr, arith, if◌then◌else◌,
}
use flownexus.Prelude.Int.{pos}
use flownexus.Text.{same_codes}
use flownexus.Table.Search.{Elem}
use flownexus.Models.Exec.{Result, ok}
use flownexus.Frontend.Readings.Cells.{
  Shown, Name, Held, one, several, ResData, held, indexed, indexes, ends_in_bracket, Cell, cell,
  item, scalar, row_cells,
}
use flownexus.Frontend.Readings.Gathered.{same_codes_iff}
use flownexus.Frontend.Readings.Labels.{cell-scalar, cell-indexed}
use flownexus.Frontend.Readings.Columns.{Readable, Named, Covers}

-- The cell of a row under a column.
abbrev pub cell_under : Name → List Name → List Cell → Option Cell
cell_under col (c ∷ cols) (x ∷ cells) =
    if same_codes c col then some x else cell_under col cols cells
cell_under col _ _ = none

-- The row shows the values of a name: one under the name, several under the name with an index.
abbrev pub ShowsHeld : List Name → List Cell → Name → Held → Type 0
ShowsHeld cols cells name (one v) = cell_under name cols cells ≡ some (some v)
ShowsHeld cols cells name (several vs) =
    (i : ℕ) → i < length vs → cell_under (indexed name i) cols cells ≡ some (get_elem? vs i)

abbrev pub ShowsAll : List Name → List Cell → ResData → Type 0
ShowsAll cols cells d =
    (name : Name) (h : Held) → held name d ≡ some h → ShowsHeld cols cells name h

module _ (d : ResData) where
  cell_ok : (col : Name) → Readable col → (c : Cell) × (cell d col ≡ ok c)
  unfolding item
  cell_ok col (inl plain) = go (held col d) refl
    where
      go : (o : Option Held) → held col d ≡ o → (c : Cell) × (cell d col ≡ ok c)
      go none e = (none, cell-scalar d col plain ∙ ap scalar e)
      go (some (one v)) e = (some v, cell-scalar d col plain ∙ ap scalar e)
      go (some (several vs)) e = (none, cell-scalar d col plain ∙ ap scalar e)
  cell_ok col (inr (name, i, same)) = go (held name d) refl
    where
      read : cell d col ≡ item (pos i) (held name d)
      read = rw same (cell-indexed d name i)

      go : (o : Option Held) → held name d ≡ o → (c : Cell) × (cell d col ≡ ok c)
      go none e = (none, read ∙ ap (item (pos i)) e)
      go (some (one v)) e = (none, read ∙ ap (item (pos i)) e)
      go (some (several vs)) e = (get_elem? vs i, read ∙ ap (item (pos i)) e)

  -- The cells of a row, each under its column.
  row_ok :
      (cols : List Name)
      → All Readable cols
      → (cells : List Cell) × (row_cells d cols ≡ ok cells)
        × ((col : Name) (c : Cell)
            → Elem col cols
            → cell d col ≡ ok c
            → cell_under col cols cells ≡ some c)
  unfolding row_cells
  row_ok [] h = ([], refl, λ col c i e. absurd i)
  row_ok (col ∷ cols) (r, h) =
      let (c, e) = cell_ok col r in
      let (cells, ran, under) = row_ok cols h in
      (
        c ∷ cells,
        rw (e, ran) refl,
        λ other x i f. elim (Bool-cases (same_codes col other)) [
          | inl same ↦
              let key : col ≡ other = (same_codes_iff col other).0 same in
              let this : ◌≡◌ {A = Result Cell} (ok c) (ok x) =
                sym e ∙ subst (λ n. cell d n ≡ ok x) (sym key) f in
              let cells_same : c ≡ x = cc in rw (same, cells_same) refl
          | inr apart ↦ elim i [
            | inl again ↦
                let clash : same_codes col other ≡ true =
                  (same_codes_iff col other).1 (sym again) in
                cc
            | inr later ↦ rw apart (under other x later f)
          ]
        ],
      )

held-Named :
    (name : Name) (h : Held) (d : ResData)
    → Named d
    → held name d ≡ some h
    → ends_in_bracket name ≡ false
held-Named name h [] n e = cc
held-Named name h ((m, g) ∷ d) (p, n) e = elim (Bool-cases (same_codes m name)) [
  | inl same ↦ subst (λ x. ends_in_bracket x ≡ false) ((same_codes_iff m name).0 same) p
  | inr apart ↦ held-Named name h d n (rw apart at e)
]

Elem-indexes :
    (name : Name) (from i n : ℕ) (vs : List Shown)
    → n ≡ from + i
    → i < length vs
    → Elem (indexed name n) (indexes name from vs)
Elem-indexes name from i n [] e h = absurd (omega arith)
Elem-indexes name from zero n (v ∷ vs) e h = inl (ap (indexed name) (omega arith))
Elem-indexes name from (suc i) n (v ∷ vs) e h =
    inr (Elem-indexes name (suc from) i n vs (omega arith) (omega arith))

pub row_shows :
    (d : ResData) (cols : List Name)
    → Named d
    → Covers cols d
    → All Readable cols
    → (cells : List Cell) × (row_cells d cols ≡ ok cells) × ShowsAll cols cells d
unfolding item
row_shows d cols n covers readable =
    let (cells, ran, under) = row_ok d cols readable in (cells, ran, shown cells under)
  where
    shown :
        (cells : List Cell)
        → ((col : Name) (c : Cell)
            → Elem col cols
            → cell d col ≡ ok c
            → cell_under col cols cells ≡ some c)
        → ShowsAll cols cells d
    shown cells under name (one v) e =
        under name (some v) (covers name (one v) e name (inl refl))
          (cell-scalar d name (held-Named name (one v) d n e) ∙ ap scalar e)
    shown cells under name (several vs) e = λ i below.
        under (indexed name i) (get_elem? vs i)
          (covers name (several vs) e (indexed name i)
            (Elem-indexes name 0 i i vs (omega arith) below))
          (cell-indexed d name i ∙ ap (item (pos i)) e)
