-- ===== src/Frontend/Readings.antt =====
-- The queries of the data pages of server/django/frontend/views.py: the time window that
-- `data_analysis`, its export and the pump monitor share, and the rows that the export selects. A text
-- that does not parse as a time is `none`.
pub mod Isolation
pub mod Cells
pub mod Gathered
pub mod Labels
pub mod Columns
pub mod Cell
pub mod Sheet
pub mod Values
pub mod Pages
pub mod Paged
use flownexus.Prelude.{
  ℕ, ◌+◌, ◌-◌, ◌*◌, String, Bool, true, false, ◌&&◌, not, Option, none, some, List, [], ◌∷◌, length,
  ◌==◌, nat_key, text_key, if◌then◌else◌, is_some, leb, ltb, sort_by,
}
use flownexus.Text.{codes, same_codes}
use flownexus.Table.{Rows, select, first, find, get}
use flownexus.Models.Rows.{
  User, Endpoint, ResourceType, Resource, Event, EventResource, can_view_data_analysis,
}
use flownexus.Models.Db.{Db}
use flownexus.Access.Middleware.{Context}
use flownexus.Text.{text_le}
use flownexus.Access.Permissions.{has_site_permission, site_filtered_endpoints}
use flownexus.Frontend.Dashboard.{minute}

-- `time_range`; any other text is the last 24 hours.
pub data TimeRange : Type 0 where
  one_hour seven_days thirty_days last_day always : TimeRange
  custom : Option ℕ → Option ℕ → TimeRange

abbrev hour : ℕ
hour = 60 * minute

-- One minute is added to the end of a custom range.
abbrev pub a_minute_later : Option ℕ → Option ℕ
a_minute_later none = none
a_minute_later (some t) = some (t + minute)

-- `_parse_pm_time_filters`: the begin and the end of the window.
unfoldable pub window : TimeRange → ℕ → Option ℕ × Option ℕ
window one_hour now = (some (now - hour), none)
window seven_days now = (some (now - 7 * 24 * hour), none)
window thirty_days now = (some (now - 30 * 24 * hour), none)
window last_day now = (some (now - 24 * hour), none)
window always now = (none, none)
window (custom from to) now = (from, a_minute_later to)

-- The parameter `all` means no filter.
abbrev pub unless_all : Option String → Option String
unless_all none = none
unless_all (some v) = if v == "" then none else if v == "all" then none else some v

-- `… or None`
abbrev pub or_none : Option String → Option String
or_none none = none
or_none (some v) = if v == "" then none else some v

-- `_parse_export_filters`, with the key of a resource type read as a number.
pub record Filters : Type 0 where
  pub endpoint_id : Option String
  pub resource_type_id : Option ℕ
  pub event_type : Option String
  pub start_date : Option ℕ
  pub end_date : Option ℕ

unfoldable pub filters_of : Option String → Option ℕ → Option String → TimeRange → ℕ → Filters
unfolding window
filters_of ep rt event range now = record {
  endpoint_id = unless_all ep;
  resource_type_id = rt;
  event_type = or_none event;
  start_date = (window range now).0;
  end_date = (window range now).1;
}

abbrev pub from_on : Option ℕ → ℕ → Bool
from_on none t = true
from_on (some from) t = leb from t

abbrev pub up_to : Option ℕ → ℕ → Bool
up_to none t = true
up_to (some to) t = leb t to

abbrev pub is_endpoint : Option String → String → Bool
is_endpoint none ep = true
is_endpoint (some name) ep = ep == name

abbrev pub is_type : Option ℕ → ℕ → Bool
is_type none k = true
is_type (some j) k = k == j

abbrev pub has_event_type : Option String → List ℕ → Bool
has_event_type none t = true
has_event_type (some name) t = same_codes t (codes name)

abbrev pub matches_resource : Rows String Endpoint → Filters → ℕ → Resource → Bool
matches_resource eps f _ r =
    is_some (find r.endpoint eps)
    && (from_on f.start_date r.timestamp_created && up_to f.end_date r.timestamp_created)
    && (is_endpoint f.endpoint_id r.endpoint && is_type f.resource_type_id r.resource_type)

abbrev pub matches_event : Rows String Endpoint → Filters → ℕ → Event → Bool
matches_event eps f _ e =
    is_some (find e.endpoint eps)
    && (from_on f.start_date e.time && up_to f.end_date e.time)
    && (is_endpoint f.endpoint_id e.endpoint && has_event_type f.event_type e.event_type)

abbrev pub earlier : ℕ × Resource → ℕ × Resource → Bool
earlier (_, a) (_, b) = leb a.timestamp_created b.timestamp_created

abbrev pub newer_event : ℕ × Event → ℕ × Event → Bool
newer_event (_, a) (_, b) = leb b.time a.time

-- The rows of mode `values`, and of the events of an export.
unfoldable pub values_of : Db → Rows String Endpoint → Filters → Rows ℕ Resource
values_of db eps f = sort_by earlier (select (matches_resource eps f) db.resources.rows)

unfoldable pub events_of : Db → Rows String Endpoint → Filters → Rows ℕ Event
events_of db eps f = sort_by newer_event (select (matches_event eps f) db.events.rows)

abbrev pub export_row_limit : ℕ
export_row_limit = 50000

-- An export is refused, or has all the rows.
abbrev pub within_limit : {A : Type 0} → List A → Option (List A)
within_limit rows = if ltb export_row_limit (length rows) then none else some rows

-- `data_analysis_export` in mode `values`: 403, 400, or the rows of the sheet.
pub data Export (A : Type 0) : Type 0 where
  not_allowed too_long : Export A
  sheet : List A → Export A

abbrev pub sheet_of : {A : Type 0} → Option (List A) → Export A
sheet_of none = too_long
sheet_of (some rows) = sheet rows

module _ (db : Db) (u : ℕ) (user : User) (c : Context) where
  abbrev pub analysed : Rows String Endpoint
  analysed = site_filtered_endpoints db u user c (some can_view_data_analysis)

  unfoldable pub export_values : Filters → Export (ℕ × Resource)
  unfolding values_of
  export_values f =
      if has_site_permission db u user c can_view_data_analysis
      then sheet_of (within_limit (values_of db analysed f))
      else not_allowed

  unfoldable pub export_events : Filters → Export (ℕ × Event)
  unfolding events_of
  export_events f =
      if has_site_permission db u user c can_view_data_analysis
      then sheet_of (within_limit (events_of db analysed f))
      else not_allowed
