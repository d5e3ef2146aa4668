-- ===== src/Frontend/Pump/Limits.antt =====
-- The limits of the pump export.
use flownexus.Prelude.{
  ℕ, zero, suc, ◌+◌, ◌≤◌, ◌≡◌, refl, ap, String, Bool, true, false, Option, List, [], ◌∷◌, map,
  length, ltb, leb, if◌then◌else◌, arith, Bool-cases, inl, inr,
}
use flownexus.Table.{Rows}
use flownexus.Table.Search.{Elem, Elem-map}
use flownexus.Models.Rows.{User, Event, can_view_data_analysis}
use flownexus.Models.Db.{Db}
use flownexus.Access.Middleware.{Context}
use flownexus.Access.Permissions.{has_site_permission}
use flownexus.Frontend.Readings.{TimeRange}
use flownexus.Frontend.Pump.Detail.{event_samples}
use flownexus.Frontend.Pump.Export.{
  export_event_limit, export_sample_limit, event_bytes, longest, sample_rows, PumpExport,
  not_allowed, too_many_events, too_many_samples, exported, header_cell, sheet_for, export_of,
  page_events, pump_monitor_export,
}
use flownexus.Frontend.Pump.Columns.{event_bytes-eq-event_samples, export_of_lem}

-- What each answer says of the events of the page.
abbrev pub Limits : Db → Rows ℕ Event → PumpExport → Type 0
Limits db events not_allowed = Unit
Limits db events too_many_events = export_event_limit + 1 ≤ length events
Limits db events too_many_samples =
    (x : ℕ × Event) × Elem x events × (export_sample_limit + 1 ≤ length (event_samples db x.0))
Limits db events (exported s) =
    (length events ≤ export_event_limit)
    × (length s.header ≡ length events)
    × (length s.rows ≤ export_sample_limit)

longest_found :
    (columns : List (List ℕ)) (m : ℕ)
    → m + 1 ≤ longest columns
    → (s : List ℕ) × Elem s columns × (m + 1 ≤ length s)
longest_found [] m h = absurd (omega arith)
longest_found (s ∷ rest) m h = elim (Bool-cases (leb (length s) (longest rest))) [
  | inl less ↦ let (t, i, le) = longest_found rest m (rw less at h) in (t, inr i, le)
  | inr most ↦ (s, inl refl, rw most at h)
]

length-map : {A B : Type 0} (f : A → B) (xs : List A) → length (map f xs) ≡ length xs
length-map f [] = refl
length-map f (x ∷ xs) = ap suc (length-map f xs)

length-sample_rows : (columns : List (List ℕ)) (i n : ℕ) → length (sample_rows columns i n) ≡ n
unfolding sample_rows
length-sample_rows columns i zero = refl
length-sample_rows columns i (suc n) = ap suc (length-sample_rows columns (suc i) n)

Limits-sheet_for :
    (db : Db) (events : Rows ℕ Event)
    → length events ≤ export_event_limit
    → Limits db events (sheet_for db events)
unfolding sheet_for
Limits-sheet_for db events few =
    elim (Bool-cases (ltb export_sample_limit (longest (map (event_bytes db) events)))) [
      | inl long ↦ rw long (found (ground arith))
      | inr short ↦ rw short (
        few,
        length-map header_cell events,
        rw
            (length-sample_rows (map (event_bytes db) events) 0
              (longest (map (event_bytes db) events)))
            (ground arith),
      )
    ]
  where
    found :
        export_sample_limit + 1 ≤ longest (map (event_bytes db) events)
        → (x : ℕ × Event) × Elem x events
          × (export_sample_limit + 1 ≤ length (event_samples db x.0))
    found long =
        let (s, i, le) = longest_found (map (event_bytes db) events) export_sample_limit long in
        let (x, j, e) = Elem-map (event_bytes db) s events i in
        (x, j, rw (← event_bytes-eq-event_samples db x, ← e) le)

Limits-export_of : (db : Db) (events : Rows ℕ Event) → Limits db events (export_of db events)
Limits-export_of db events = elim (export_of_lem db events) [
  | inl (many, long) ↦ rw long many
  | inr (few, whole) ↦ rw whole (Limits-sheet_for db events few)
]

Limits-if :
    (db : Db) (events : Rows ℕ Event) (b : Bool) (x : PumpExport)
    → Limits db events x
    → Limits db events (if b then x else not_allowed)
Limits-if db events true x h = h
Limits-if db events false x h = tt

-- An export has at most 500 events, one column for each event of the page, and at most 20000 rows. It
-- is refused as too long only where the page has more than 500 events, or one of them has more than
-- 20000 samples.
pub pump_monitor_export-Limits :
    (db : Db) (u : ℕ) (user : User) (c : Context) (ep : Option String) (range : TimeRange)
    → Limits db (page_events db u user c ep range) (pump_monitor_export db u user c ep range)
unfolding pump_monitor_export
pump_monitor_export-Limits db u user c ep range =
    let events = page_events db u user c ep range in
    Limits-if db events (has_site_permission db u user c can_view_data_analysis)
      (export_of db events) (Limits-export_of db events)
