-- ===== src/Frontend/Pump/Export.antt =====
-- `pump_monitor_export`: one column for each event, one row for each sample position. Cells of the
-- header are the event's time and endpoint; a second is given in hundredths, since a sample lasts two.
use flownexus.Prelude.{
  ℕ, zero, suc, ◌*◌, String, false, Option, none, some, List, [], ◌∷◌, map, length, take, ltb, leb,
  get_elem?, if◌then◌else◌,
}
use flownexus.Table.{Rows}
use flownexus.Models.Rows.{User, Resource, Event, EventResource, can_view_data_analysis}
use flownexus.Models.Db.{Db}
use flownexus.Access.Middleware.{Context}
use flownexus.Access.Permissions.{has_site_permission}
use flownexus.Frontend.Readings.{TimeRange, window, unless_all, analysed}
use flownexus.Frontend.Pump.{raw_link, links_of, decode_samples, by_time, pump_events}

abbrev pub export_event_limit : ℕ
export_event_limit = 500

abbrev pub export_sample_limit : ℕ
export_sample_limit = 20000

-- `binary_value or b""`
abbrev pub bytes_of : Option Resource → List ℕ → List ℕ
bytes_of none later = later
bytes_of (some r) later = decode_samples r.binary_value

-- The loop over `e.resources.all()`: the first resource with raw samples ends it.
unfoldable pub raw_bytes : Db → Rows ℕ EventResource → List ℕ
raw_bytes db [] = []
raw_bytes db ((k, er) ∷ rest) = bytes_of (raw_link db er) (raw_bytes db rest)

unfoldable pub event_bytes : Db → ℕ × Event → List ℕ
unfolding raw_bytes
event_bytes db (k, e) = raw_bytes db (links_of db k)

-- `max(…, default=0)`
abbrev pub longest : List (List ℕ) → ℕ
longest [] = 0
longest (s ∷ rest) = let m = longest rest in if leb (length s) m then m else length s

pub record SampleRow : Type 0 where
  pub sample_index : ℕ
  pub hundredths : ℕ
  pub cells : List (Option ℕ)

-- `for idx in range(max_samples)`, from `idx` on for `n` rounds.
unfoldable pub sample_rows : List (List ℕ) → ℕ → ℕ → List SampleRow
sample_rows columns idx zero = []
sample_rows columns idx (suc n) =
    record { sample_index = idx; hundredths = 2 * idx; cells = map (λ s. get_elem? s idx) columns }
    ∷ sample_rows columns (suc idx) n

pub record Sheet : Type 0 where
  pub header : List (ℕ × String)
  pub rows : List SampleRow

-- 403, 400 or the sheet.
pub data PumpExport : Type 0 where
  not_allowed too_many_events too_many_samples : PumpExport
  exported : Sheet → PumpExport

abbrev pub header_cell : ℕ × Event → ℕ × String
header_cell (_, e) = (e.time, e.endpoint)

unfoldable pub sheet_for : Db → Rows ℕ Event → PumpExport
unfolding event_bytes sample_rows
sheet_for db events =
    let columns = map (event_bytes db) events in
    let n = longest columns in
    let sheet : Sheet = record {
      header = map header_cell events;
      rows = sample_rows columns 0 n;
    } in
    if ltb export_sample_limit n then too_many_samples else exported sheet

-- `list(events[: PUMP_EXPORT_EVENT_LIMIT + 1])`
unfoldable pub export_of : Db → Rows ℕ Event → PumpExport
unfolding sheet_for
export_of db events =
    let loaded = take (suc export_event_limit) events in
    if ltb export_event_limit (length loaded) then too_many_events else sheet_for db loaded

module _ (db : Db) (u : ℕ) (user : User) (c : Context) where
  -- The events of the page, in its default order.
  abbrev pub page_events : Option String → TimeRange → Rows ℕ Event
  unfolding pump_events window
  page_events ep range =
      let (from, to) = window range db.now in
      pump_events db (analysed db u user c) (unless_all ep) from to by_time false

  unfoldable pub pump_monitor_export : Option String → TimeRange → PumpExport
  unfolding export_of page_events
  pump_monitor_export ep range =
      if has_site_permission db u user c can_view_data_analysis
      then export_of db (page_events ep range)
      else not_allowed
