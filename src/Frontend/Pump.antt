-- ===== src/Frontend/Pump.antt =====
-- The pump monitor of server/django/frontend/views.py: the events 10300, their pressure samples, and
-- the queries of its list. Where a query leaves an order open, it is that of the keys.
pub mod Samples
pub mod Export
pub mod Detail
pub mod Entries
pub mod Isolation
pub mod Columns
pub mod Limits
use flownexus.Prelude.{
  ℕ, ◌+◌, String, Bool, true, false, ◌&&◌, Option, none, some, List, [], ◌∷◌, length, ◌==◌, nat_key,
  text_key, if◌then◌else◌, is_some, leb, sort_by,
}
use flownexus.Text.{codes, same_codes}
use flownexus.Table.{Rows, select, first, find, get}
use flownexus.Models.Rows.{Endpoint, ResourceType, Resource, Event, EventResource}
use flownexus.Models.Db.{Db}
use flownexus.Models.Device.{get_binary_size}
use flownexus.Text.{text_le}
use flownexus.Frontend.Readings.{from_on, up_to, is_endpoint}

abbrev pub is_raw_type : Option ResourceType → Bool
is_raw_type none = false
is_raw_type (some rt) = rt.name == "pm_press_raw"

-- The resource that a link of an event points to, if it holds raw samples.
abbrev pub raw_of : Db → Option Resource → Option Resource
raw_of db none = none
raw_of db (some r) = if is_raw_type (get r.resource_type db.resource_types) then some r else none

abbrev pub raw_link : Db → EventResource → Option Resource
raw_link db er = raw_of db (get er.resource db.resources)

-- `_get_pm_press_raw_resource`
abbrev pub is_raw_link_of : Db → ℕ → ℕ → EventResource → Bool
is_raw_link_of db event _ er = er.event == event && is_some (raw_link db er)

abbrev pub linked : Db → Option (ℕ × EventResource) → Option Resource
linked db none = none
linked db (some (_, er)) = get er.resource db.resources

unfoldable pub press_raw : Db → ℕ → Option Resource
press_raw db event = linked db (first (is_raw_link_of db event) db.event_resources.rows)

-- `_decode_raw_samples`: each byte is a sample.
abbrev pub decode_samples : Option (List ℕ) → List ℕ
decode_samples none = []
decode_samples (some bytes) = bytes

-- `Coalesce(Length(…), 0)`
abbrev pub or_zero : Option ℕ → ℕ
or_zero none = 0
or_zero (some n) = n

abbrev pub binary_length : Option Resource → ℕ
unfolding get_binary_size
binary_length none = 0
binary_length (some r) = or_zero (get_binary_size r)

-- The annotation `sample_count` of `_build_pm_queryset`.
unfoldable pub sample_count : Db → ℕ → ℕ
unfolding press_raw binary_length
sample_count db event = binary_length (press_raw db event)

-- `event.resources.all()`
abbrev pub links_of : Db → ℕ → Rows ℕ EventResource
links_of db event = select (λ _ er. er.event == event) db.event_resources.rows

abbrev pub raw_count : Option Resource → ℕ → ℕ
raw_count none later = later
raw_count (some r) later = or_zero (get_binary_size r)

-- The loop of `_pm_sample_count`: the first resource with raw samples decides.
unfoldable pub pm_sample_count : Db → Rows ℕ EventResource → ℕ
unfolding get_binary_size
pm_sample_count db [] = 0
pm_sample_count db ((k, er) ∷ rest) = raw_count (raw_link db er) (pm_sample_count db rest)

-- `PM_SORT_WHITELIST`; any other column is `time`.
pub data SortColumn : Type 0 where
  by_time by_endpoint by_sample_count : SortColumn

abbrev pub column_le : Db → SortColumn → ℕ × Event → ℕ × Event → Bool
column_le db by_time (_, a) (_, b) = leb a.time b.time
column_le db by_endpoint (_, a) (_, b) = text_le a.endpoint b.endpoint
column_le db by_sample_count (j, _) (k, _) = leb (sample_count db j) (sample_count db k)

abbrev pub ordered : Db → SortColumn → Bool → ℕ × Event → ℕ × Event → Bool
ordered db column ascending a b =
    if ascending then column_le db column a b else column_le db column b a

abbrev pub is_pump_event :
    Rows String Endpoint → Option String → Option ℕ → Option ℕ → ℕ → Event → Bool
is_pump_event eps ep from to _ e =
    is_some (find e.endpoint eps)
    && same_codes e.event_type (codes "10300")
    && (from_on from e.time && up_to to e.time && is_endpoint ep e.endpoint)

-- `_build_pm_queryset`
unfoldable pub pump_events :
    Db
    → Rows String Endpoint
    → Option String
    → Option ℕ
    → Option ℕ
    → SortColumn
    → Bool
    → Rows ℕ Event
unfolding sample_count
pump_events db eps ep from to column ascending =
    sort_by (ordered db column ascending) (select (is_pump_event eps ep from to) db.events.rows)
