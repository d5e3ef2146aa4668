-- ===== src/Frontend/Readings/Columns.antt =====
-- The columns of the event sheet: each value of an event has one.
use flownexus.Prelude.{
  ℕ, suc, ◌≡◌, refl, sym, subst, false, Option, some, List, [], ◌∷◌, ◌++◌, All, Bool-cases, ◌⊎◌,
  inl, inr,
}
use flownexus.Text.{same_codes}
use flownexus.Table.Search.{Elem, any_sound}
use flownexus.Frontend.Readings.Cells.{
  Shown, Name, Held, one, several, ResData, held, indexed, indexes, columns_for, has_column,
  add_column, add_columns, add_event, extra_columns, ends_in_bracket,
}
use flownexus.Frontend.Readings.Gathered.{same_codes_iff}

-- A column that is read as it was written.
abbrev pub Readable : Name → Type 0
Readable col = (ends_in_bracket col ≡ false) ⊎ ((name : Name) × (i : ℕ) × (col ≡ indexed name i))

abbrev pub Named : ResData → Type 0
Named d = All (λ (x : Name × Held). ends_in_bracket x.0 ≡ false) d

-- The columns grow.
abbrev pub Within : List Name → List Name → Type 0
Within a b = (col : Name) → Elem col a → Elem col b

Elem-right : (x : Name) (xs ys : List Name) → Elem x ys → Elem x (xs ++ ys)
Elem-right x [] ys h = h
Elem-right x (y ∷ xs) ys h = inr (Elem-right x xs ys h)

Elem-left : (x : Name) (xs ys : List Name) → Elem x xs → Elem x (xs ++ ys)
Elem-left x [] ys h = absurd h
Elem-left x (y ∷ xs) ys (inl e) = inl e
Elem-left x (y ∷ xs) ys (inr h) = inr (Elem-left x xs ys h)

All-snoc : (P : Name → Type 0) (x : Name) (xs : List Name) → All P xs → P x → All P (xs ++ x ∷ [])
All-snoc P x [] h p = (p, tt)
All-snoc P x (y ∷ xs) (q, h) p = (q, All-snoc P x xs h p)

-- One column more.
add_column-Within : (cols : List Name) (name : Name) → Within cols (add_column cols name)
add_column-Within cols name col h = elim (Bool-cases (has_column name cols)) [
  | inl e ↦ rw e h
  | inr e ↦ rw e (Elem-left col cols (name ∷ []) h)
]

add_column-Elem : (cols : List Name) (name : Name) → Elem name (add_column cols name)
add_column-Elem cols name = elim (Bool-cases (has_column name cols)) [
  | inl e ↦
      let (c, i, same) = any_sound (λ c. same_codes c name) cols e in
      rw (e, sym ((same_codes_iff c name).0 same)) i
  | inr e ↦ rw e (Elem-right name cols (name ∷ []) (inl refl))
]

add_column-Readable :
    (cols : List Name) (name : Name)
    → All Readable cols
    → Readable name
    → All Readable (add_column cols name)
add_column-Readable cols name h r = elim (Bool-cases (has_column name cols)) [
  | inl e ↦ rw e h
  | inr e ↦ rw e (All-snoc Readable name cols h r)
]

-- Several columns more.
Grows : List Name → List Name → List Name → Type 0
Grows cols new after = Within cols after × Within new after × All Readable after

added :
    (cols new : List Name)
    → All Readable cols
    → All Readable new
    → Grows cols new (add_columns cols new)
unfolding add_columns Grows
added cols [] h r = (λ col i. i, λ col i. absurd i, h)
added cols (name ∷ rest) h (q, r) =
    let (kept, there, readable) =
      added (add_column cols name) rest (add_column-Readable cols name h q) r in
    (
      λ col i. kept col (add_column-Within cols name col i),
      λ col i. elim i [
        | inl e ↦ rw e (kept name (add_column-Elem cols name))
        | inr j ↦ there col j
      ],
      readable,
    )

indexes-Readable : (name : Name) (i : ℕ) (vs : List Shown) → All Readable (indexes name i vs)
indexes-Readable name i [] = tt
indexes-Readable name i (v ∷ vs) = (inr (name, i, refl), indexes-Readable name (suc i) vs)

columns_for-Readable :
    (name : Name) (h : Held) → ends_in_bracket name ≡ false → All Readable (columns_for (name, h))
columns_for-Readable name (one v) e = (inl e, tt)
columns_for-Readable name (several vs) e = indexes-Readable name 0 vs

-- All columns of an event.
abbrev pub Covers : List Name → ResData → Type 0
Covers cols d =
    (name : Name) (h : Held) → held name d ≡ some h → Within (columns_for (name, h)) cols

event_added :
    (cols : List Name) (d : ResData)
    → All Readable cols
    → Named d
    → Within cols (add_event cols d) × Covers (add_event cols d) d × All Readable (add_event cols d)
unfolding add_event Grows
event_added cols [] r n = (λ col i. i, λ name h e. cc, r)
event_added cols ((name, h) ∷ d) r (e, n) =
    let (kept, there, readable) =
      added cols (columns_for (name, h)) r (columns_for-Readable name h e) in
    let (kept_on, covers, readable_on) =
      event_added (add_columns cols (columns_for (name, h))) d readable n in
    (
      λ col i. kept_on col (kept col i),
      λ other held_there found. elim (Bool-cases (same_codes name other)) [
        | inl same ↦
            let this : ◌≡◌ {A = Option Held} (some h) (some held_there) = rw same at found in
            let key : name ≡ other = (same_codes_iff name other).0 same in
            let pair : ◌≡◌ {A = Name × Held} (name, h) (other, held_there) = cc in
            subst (λ (x : Name × Held). Within (columns_for x) (add_event cols ((name, h) ∷ d)))
              pair (λ col i. kept_on col (there col i))
        | inr apart ↦ covers other held_there (rw apart at found)
      ],
      readable_on,
    )

-- All columns of all events.
pub columns_added :
    (cols : List Name) (ds : List ResData)
    → All Readable cols
    → All Named ds
    → Within cols (extra_columns cols ds)
      × All (Covers (extra_columns cols ds)) ds
      × All Readable (extra_columns cols ds)
unfolding extra_columns
columns_added cols [] r n = (λ col i. i, tt, r)
columns_added cols (d ∷ ds) r (e, n) =
    let (kept, covers, readable) = event_added cols d r e in
    let (kept_on, covered, readable_on) = columns_added (add_event cols d) ds readable n in
    (
      λ col i. kept_on col (kept col i),
      (λ name h found col i. kept_on col (covers name h found col i), covered),
      readable_on,
    )
