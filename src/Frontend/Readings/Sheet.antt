-- ===== src/Frontend/Readings/Sheet.antt =====
-- The event sheet holds every value of every exported event.
use flownexus.Prelude.{
  ℕ, ◌≡◌, refl, ap, false, Option, none, some, List, [], ◌∷◌, map, All, Bool-cases, inl, inr,
}
use flownexus.Text.{codes, same_codes}
use flownexus.Table.{Rows, get}
use flownexus.Models.Rows.{ResourceType, Resource, Event, EventResource}
use flownexus.Models.Db.{Db}
use flownexus.Models.Exec.{ok}
use flownexus.Frontend.Pump.{links_of}
use flownexus.Frontend.Readings.Cells.{
  Shown, Name, ResData, remember, gathered, res_data, named, named_values, type_of, extra_columns,
  ends_in_bracket, Cell, event_rows, EventSheet, event_sheet, with_columns, data_of_event,
}
use flownexus.Frontend.Readings.Columns.{Readable, Named, Covers, columns_added}
use flownexus.Frontend.Readings.Cell.{ShowsAll, row_shows}

-- The rows are those of the events, in their order, and show all that the events hold.
abbrev pub RowsShow : Db → List Name → Rows ℕ Event → List ((ℕ × Event) × List Cell) → Type 0
RowsShow db cols [] [] = Unit
RowsShow db cols (x ∷ events) ((y, cells) ∷ rows) =
    (x ≡ y) × ShowsAll cols cells (data_of_event db x) × RowsShow db cols events rows
RowsShow db cols _ _ = ⊥

rows_show :
    (db : Db) (cols : List Name) (events : Rows ℕ Event)
    → All Named (map (data_of_event db) events)
    → All (Covers cols) (map (data_of_event db) events)
    → All Readable cols
    → (rows : List ((ℕ × Event) × List Cell)) × (event_rows db cols events ≡ ok rows)
      × RowsShow db cols events rows
unfolding event_rows
rows_show db cols [] n c r = ([], refl, tt)
rows_show db cols ((k, e) ∷ events) (n, ns) (c, cs) r =
    let (cells, ran, shown) = row_shows (res_data db k) cols n c r in
    let (rows, ran_on, rest) = rows_show db cols events ns cs r in
    (((k, e), cells) ∷ rows, rw (ran, ran_on) refl, (refl, shown, rest))

-- No resource type has a name that ends in a bracket.
abbrev pub PlainNames : Db → Type 0
PlainNames db =
    (k : ℕ) (rt : ResourceType)
    → get k db.resource_types ≡ some rt
    → ends_in_bracket (codes rt.name) ≡ false

remember-Named :
    (name : Name) (v : Shown) (d : ResData)
    → ends_in_bracket name ≡ false
    → Named d
    → Named (remember name v d)
unfolding remember
remember-Named name v [] e n = (e, tt)
remember-Named name v ((m, h) ∷ d) e (p, n) = elim (Bool-cases (same_codes m name)) [
  | inl same ↦ rw same (p, n)
  | inr apart ↦ rw apart (p, remember-Named name v d e n)
]

module _ (db : Db) (plain_names : PlainNames db) where
  abbrev HasPlain : Name × Shown → Type 0
  HasPlain x = ends_in_bracket x.0 ≡ false

  named-Plain :
      (r : Option Resource) (rt : Option ResourceType) (rest : List (Name × Shown))
      → type_of db r ≡ rt
      → All HasPlain rest
      → All HasPlain (named r rt rest)
  named-Plain none rt rest e h = h
  named-Plain (some r) none rest e h = h
  named-Plain (some r) (some rt) rest e h = (plain_names r.resource_type rt e, h)

  named_values-Plain : (links : Rows ℕ EventResource) → All HasPlain (named_values db links)
  unfolding named_values
  named_values-Plain [] = tt
  named_values-Plain ((k, er) ∷ rest) =
      let r = get er.resource db.resources in
      named-Plain r (type_of db r) (named_values db rest) refl (named_values-Plain rest)

  gathered-Named :
      (xs : List (Name × Shown)) (d : ResData) → All HasPlain xs → Named d → Named (gathered xs d)
  unfolding gathered
  gathered-Named [] d h n = n
  gathered-Named ((name, v) ∷ xs) d (p, h) n =
      gathered-Named xs (remember name v d) h (remember-Named name v d p n)

  All-Named : (events : Rows ℕ Event) → All Named (map (data_of_event db) events)
  unfolding res_data
  All-Named [] = tt
  All-Named ((k, e) ∷ events) = (
    gathered-Named (named_values db (links_of db k)) [] (named_values-Plain (links_of db k)) tt,
    All-Named events,
  )

  -- If no name of a resource type ends in a bracket, the event export never fails once its events are
  -- selected, and its sheet has a row for each event, in their order, that shows every value that
  -- `res_data` holds of the event: a single one in the column of its name, and the values of a list in
  -- the columns of the name with their indexes.
  pub event_sheet-RowsShow :
      (events : Rows ℕ Event)
      → (s : EventSheet) × (event_sheet db events ≡ ok s) × RowsShow db s.columns events s.rows
  unfolding event_sheet
  event_sheet-RowsShow events =
      let (_, covers, readable) =
        columns_added [] (map (data_of_event db) events) tt (All-Named events) in
      let cols = extra_columns [] (map (data_of_event db) events) in
      let (rows, ran, shown) = rows_show db cols events (All-Named events) covers readable in
      (record { columns = cols; rows = rows }, ap (with_columns cols) ran, shown)
