-- ===== src/Frontend/Pump/Columns.antt =====
-- A column of the pump export is read back as the samples of its event.
use flownexus.Prelude.{
  ℕ, zero, suc, ◌+◌, ◌≤◌, ◌≡◌, refl, ap, sym, ◌∙◌, String, Bool, true, false, Option, some, List,
  [], ◌∷◌, map, length, take, ltb, get_elem?, if◌then◌else◌, arith, Bool-cases, Option-cases, ◌⊎◌,
  inl, inr, ◌==◌, nat_key,
}
use flownexus.Table.{Rows, select, first, get}
use flownexus.Models.Rows.{User, Event, EventResource, can_view_data_analysis}
use flownexus.Models.Db.{Db}
use flownexus.Access.Middleware.{Context}
use flownexus.Access.Permissions.{has_site_permission}
use flownexus.Frontend.Readings.{TimeRange}
use flownexus.Frontend.Pump.{is_raw_link_of, linked, press_raw, is_raw_type, decode_samples}
use flownexus.Frontend.Pump.Detail.{binary_of, event_samples}
use flownexus.Frontend.Pump.Export.{
  export_event_limit, export_sample_limit, raw_bytes, event_bytes, longest, SampleRow, sample_rows,
  PumpExport, not_allowed, too_many_events, exported, header_cell, sheet_for, export_of,
  page_events, pump_monitor_export,
}

abbrev and_then : Option (Option ℕ) → List ℕ → List ℕ
and_then (some (some v)) rest = v ∷ rest
and_then _ rest = rest

-- The values of a column, without its blanks.
abbrev pub read_column : ℕ → List SampleRow → List ℕ
read_column j [] = []
read_column j (r ∷ rows) = and_then (get_elem? r.cells j) (read_column j rows)

get_elem?-map :
    {A B : Type 0} (f : A → B) (xs : List A) (j : ℕ) (x : A)
    → get_elem? xs j ≡ some x
    → get_elem? (map f xs) j ≡ some (f x)
get_elem?-map f [] j x h = cc
get_elem?-map f (y ∷ ys) zero x h = cc
get_elem?-map f (y ∷ ys) (suc j) x h = get_elem?-map f ys j x h

abbrev drop : ℕ → List ℕ → List ℕ
drop zero xs = xs
drop (suc n) [] = []
drop (suc n) (x ∷ xs) = drop n xs

read_at : (s : List ℕ) (i : ℕ) → drop i s ≡ and_then (some (get_elem? s i)) (drop (suc i) s)
read_at [] zero = refl
read_at [] (suc i) = refl
read_at (x ∷ s) zero = refl
read_at (x ∷ s) (suc i) = read_at s i

drop-end : (s : List ℕ) (i : ℕ) → length s ≤ i → drop i s ≡ []
drop-end [] zero h = refl
drop-end [] (suc i) h = refl
drop-end (x ∷ s) zero h = absurd (omega arith)
drop-end (x ∷ s) (suc i) h = drop-end s i (omega arith)

read_column-sample_rows :
    (columns : List (List ℕ)) (j : ℕ) (s : List ℕ) (i n : ℕ)
    → get_elem? columns j ≡ some s
    → length s ≤ i + n
    → read_column j (sample_rows columns i n) ≡ drop i s
unfolding sample_rows
read_column-sample_rows columns j s i zero at le = sym (drop-end s i (omega arith))
read_column-sample_rows columns j s i (suc n) at le =
    rw
      (
        get_elem?-map (λ (t : List ℕ). get_elem? t i) columns j s at,
        read_column-sample_rows columns j s (suc i) n at (omega arith),
      )
      (sym (read_at s i))

longest-ge :
    (columns : List (List ℕ)) (j : ℕ) (s : List ℕ)
    → get_elem? columns j ≡ some s
    → length s ≤ longest columns
longest-ge [] j s h = cc
longest-ge (t ∷ ts) zero s h = let same : t ≡ s = cc in rw (← same) (ground arith)
longest-ge (t ∷ ts) (suc j) s h = ground (arith, longest-ge ts j s h)

-- The export reads the samples that the detail view shows.
bytes_first :
    (db : Db) (event : ℕ) (rows : Rows ℕ EventResource)
    → raw_bytes db (select (λ _ er. er.event == event) rows)
      ≡ decode_samples (binary_of (linked db (first (is_raw_link_of db event) rows)))
unfolding raw_bytes
bytes_first db event [] = refl
bytes_first db event ((k, er) ∷ rows) = elim (Bool-cases (er.event == event)) [
  | inr other ↦ simp other (bytes_first db event rows)
  | inl same ↦ elim (Option-cases (get er.resource db.resources)) [
    | inl gone ↦ simp (same, gone) (bytes_first db event rows)
    | inr (r, there) ↦ elim (Bool-cases (is_raw_type (get r.resource_type db.resource_types))) [
      | inl raw ↦ simp (same, there, raw) refl
      | inr plain ↦ simp (same, there, plain) (bytes_first db event rows)
    ]
  ]
]

pub event_bytes-eq-event_samples :
    (db : Db) (x : ℕ × Event) → event_bytes db x ≡ event_samples db x.0
unfolding event_bytes event_samples press_raw
event_bytes-eq-event_samples db x = bytes_first db x.0 db.event_resources.rows

take_all : {A : Type 0} (n : ℕ) (xs : List A) → length (take (suc n) xs) ≤ n → take (suc n) xs ≡ xs
take_all n [] h = refl
take_all zero (x ∷ xs) h = absurd (omega arith)
take_all (suc n) (x ∷ xs) h = ap (λ ys. x ∷ ys) (take_all n xs (omega arith))

length-take : {A : Type 0} (n : ℕ) (xs : List A) → length (take n xs) ≤ length xs
length-take zero xs = omega arith
length-take (suc n) [] = omega arith
length-take (suc n) (x ∷ xs) = omega (arith, length-take n xs)

-- Whether a list is longer than `n` shows in its first `n + 1` elements.
limit_cases :
    {A : Type 0} (n : ℕ) (xs : List A)
    → ((n + 1 ≤ length xs) × (ltb n (length (take (suc n) xs)) ≡ true))
      ⊎ ((length xs ≤ n) × (ltb n (length (take (suc n) xs)) ≡ false) × (take (suc n) xs ≡ xs))
limit_cases n xs = elim (Bool-cases (ltb n (length (take (suc n) xs)))) [
  | inl long ↦
      let lt : n + 1 ≤ length (take (suc n) xs) = ground (arith, long) in
      inl (omega (arith, lt, length-take (suc n) xs), long)
  | inr short ↦
      let le : length (take (suc n) xs) ≤ n = ground (arith, short) in
      let whole = take_all n xs le in inr (rw (← ap length whole) le, short, whole)
]

-- Too many events are refused, and otherwise none is left out.
pub export_of_lem :
    (db : Db) (events : Rows ℕ Event)
    → ((export_event_limit + 1 ≤ length events) × (export_of db events ≡ too_many_events))
      ⊎ ((length events ≤ export_event_limit) × (export_of db events ≡ sheet_for db events))
unfolding export_of
export_of_lem db events = elim (limit_cases export_event_limit events) [
  | inl (many, long) ↦ inl (many, rw long refl)
  | inr (few, short, whole) ↦ inr (few, rw (short, whole) refl)
]

-- Each event of the page has its column: the header names it, and the column holds its samples.
abbrev pub Columns : Db → Rows ℕ Event → PumpExport → Type 0
Columns db events (exported s) =
    (j k : ℕ) (e : Event)
    → get_elem? events j ≡ some (k, e)
    → (get_elem? s.header j ≡ some (e.time, e.endpoint))
      × (read_column j s.rows ≡ event_samples db k)
Columns db events _ = Unit

Columns-sheet_for : (db : Db) (events : Rows ℕ Event) → Columns db events (sheet_for db events)
unfolding sheet_for
Columns-sheet_for db events =
    elim (Bool-cases (ltb export_sample_limit (longest (map (event_bytes db) events)))) [
      | inl long ↦ rw long tt
      | inr short ↦ rw short column
    ]
  where
    column :
        (j k : ℕ) (e : Event)
        → get_elem? events j ≡ some (k, e)
        → (get_elem? (map header_cell events) j ≡ some (e.time, e.endpoint))
          × (read_column j (
                sample_rows (map (event_bytes db) events) 0 (longest (map (event_bytes db) events)))
              ≡ event_samples db k)
    column j k e at =
        let columns = map (event_bytes db) events in
        let mine = get_elem?-map (event_bytes db) events j (k, e) at in
        (
          get_elem?-map header_cell events j (k, e) at,
          read_column-sample_rows columns j (event_bytes db (k, e)) 0 (longest columns) mine
                (omega (arith, longest-ge columns j (event_bytes db (k, e)) mine))
              ∙ event_bytes-eq-event_samples db (k, e),
        )

Columns-export_of : (db : Db) (events : Rows ℕ Event) → Columns db events (export_of db events)
Columns-export_of db events = elim (export_of_lem db events) [
  | inl (_, long) ↦ rw long tt
  | inr (_, whole) ↦ rw whole (Columns-sheet_for db events)
]

Columns-if :
    (db : Db) (events : Rows ℕ Event) (b : Bool) (x : PumpExport)
    → Columns db events x
    → Columns db events (if b then x else not_allowed)
Columns-if db events true x h = h
Columns-if db events false x h = tt

-- In the sheet of an export every event of the page, in its order, has a column: the header names its
-- time and its device, and the column's values, read downwards without the blanks at its end, are
-- the samples that the detail view shows.
pub pump_monitor_export-Columns :
    (db : Db) (u : ℕ) (user : User) (c : Context) (ep : Option String) (range : TimeRange)
    → Columns db (page_events db u user c ep range) (pump_monitor_export db u user c ep range)
unfolding pump_monitor_export
pump_monitor_export-Columns db u user c ep range =
    let events = page_events db u user c ep range in
    Columns-if db events (has_site_permission db u user c can_view_data_analysis)
      (export_of db events) (Columns-export_of db events)
