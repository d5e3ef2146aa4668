-- ===== src/Tests/Sheets.antt =====
-- The cells of the event export and the JSON pages of the data page at concrete databases.
use flownexus.Prelude.{
  ℕ, ◌≡◌, refl, String, false, Option, none, some, [], ◌∷◌, arith, nat_eq, subst, Bool-cases, inl,
  inr,
}
use flownexus.Prelude.Int.{pos}
use flownexus.Text.{codes}
use flownexus.Text.Number.{str_int, int_codes}
use flownexus.Models.Rows.{integer, ResourceType, Resource}
use flownexus.Models.Db.{Db}
use flownexus.Models.Exec.{ok, err, value_error, type_error}
use flownexus.Models.Device.{bare_resource, number, get_value}
use flownexus.Access.Middleware.{SiteKey, site_context}
use flownexus.Access.Permissions.{has_site_permission, site_filtered_endpoints}
use flownexus.Frontend.Pump.{links_of}
use flownexus.Frontend.Readings.{Filters, filters_of, last_day, newer_event}
use flownexus.Frontend.Readings.Isolation.{MayView}
use flownexus.Frontend.Readings.Cells.{
  plain, named_values, held, res_data, EventSheet, event_sheet, ends_in_bracket,
}
use flownexus.Frontend.Readings.Gathered.{as_held, values_named, held-res_data}
use flownexus.Frontend.Readings.Sheet.{RowsShow, PlainNames, event_sheet-RowsShow}
use flownexus.Frontend.Readings.Pages.{data_values, data_events, Orders}
use flownexus.Frontend.Readings.Paged.{OfPoints, OfEvents, data_analysis-MayView}
use flownexus.Tests.Data.{plain_user, north}
use flownexus.Tests.Readings.{measured}
use flownexus.Tests.Pump.{first_page, first_page-HoldsRows}

abbrev type_named : String → ResourceType
type_named name = record {
  object_id = pos 3303;
  resource_id = pos 5700;
  name = name;
  data_type = integer;
}

abbrev reading_of : ℕ → Resource
reading_of n = record (bare_resource "urn:imei:1" 1) { int_value = some (pos n) }

-- Two events with readings of one type, of which the first has two.
abbrev weather : String → Db
weather name = record measured {
  resource_types = record { rows = (1, type_named name) ∷ []; next_id = 2 };
  resources = record {
    rows = (1, reading_of 20) ∷ (2, reading_of 21) ∷ (3, reading_of 22) ∷ [];
    next_id = 4;
  };
  event_resources = record {
    rows =
        (1, record { event = 1; resource = 1 })
        ∷ (2, record { event = 1; resource = 2 })
        ∷ (3, record { event = 2; resource = 3 })
        ∷ [];
    next_id = 4;
  };
}

abbrev temperatures : Db
temperatures = weather "temp"

held-res_data_example :
    held (codes "temp") (res_data temperatures 1)
    ≡ as_held (values_named (codes "temp") (named_values temperatures (links_of temperatures 1)))
held-res_data_example = held-res_data temperatures 1 (codes "temp")

-- A column for the single value, and one for each value of the list.
three_columns :
    event_sheet temperatures temperatures.events.rows
    ≡ ok (record {
      columns = codes "temp[0]" ∷ codes "temp[1]" ∷ codes "temp" ∷ [];
      rows =
          (
            (1, record { endpoint = "urn:imei:1"; event_type = codes "10300"; time = 20 }),
            some (plain (number (pos 20))) ∷ some (plain (number (pos 21))) ∷ none ∷ [],
          )
          ∷ (
            (2, record { endpoint = "urn:imei:2"; event_type = codes "10300"; time = 21 }),
            none ∷ none ∷ some (plain (number (pos 22))) ∷ [],
          )
          ∷ [];
    })
unfolding event_sheet str_int int_codes get_value
three_columns = refl

temperatures-Plain : PlainNames temperatures
temperatures-Plain k rt h = elim (Bool-cases (nat_eq 1 k)) [
  | inl e ↦ ends (rw e at h)
  | inr e ↦ let missing : ◌≡◌ {A = Option ResourceType} none (some rt) = rw e at h in cc
]
  where
    ends :
        ◌≡◌ {A = Option ResourceType} (some (type_named "temp")) (some rt)
        → ends_in_bracket (codes rt.name) ≡ false
    ends same =
        let this : type_named "temp" ≡ rt = cc in
        subst (λ (x : ResourceType). ends_in_bracket (codes x.name) ≡ false) this refl

event_sheet-RowsShow_example :
    (s : EventSheet) × (event_sheet temperatures temperatures.events.rows ≡ ok s)
    × RowsShow temperatures s.columns temperatures.events.rows s.rows
event_sheet-RowsShow_example =
    event_sheet-RowsShow temperatures temperatures-Plain temperatures.events.rows

-- A name that ends in a bracket is read as an index.
unit_in_brackets : event_sheet (weather "temp[C]") temperatures.events.rows ≡ err value_error
unfolding event_sheet str_int int_codes
unit_in_brackets = refl

-- `order_by` of a column that is there.
abbrev any_column : Orders
any_column column ascending = some newer_event

abbrev of_the_day : Filters
unfolding filters_of
of_the_day = filters_of none none none last_day 30

data_analysis-MayView_example :
    OfPoints
      (MayView measured 7)
      (data_values first_page measured 7 plain_user north of_the_day none)
    × OfEvents
        (MayView measured 7)
        (data_events first_page measured 7 plain_user north of_the_day any_column "time" false none)
unfolding site_context
data_analysis-MayView_example =
    data_analysis-MayView first_page measured 7 plain_user refl none (some (SiteKey.id 1)) north
      (omega arith) refl of_the_day first_page-HoldsRows any_column "time" false none

-- Bytes cannot be written as JSON.
opaque_reading : data_values first_page measured 7 plain_user north of_the_day none ≡ err type_error
unfolding data_values has_site_permission site_filtered_endpoints of_the_day
opaque_reading = refl
