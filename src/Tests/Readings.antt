-- ===== src/Tests/Readings.antt =====
-- Exports and the pump monitor at a concrete database.
use flownexus.Prelude.{ℕ, ◌≡◌, refl, none, some, [], ◌∷◌, arith}
use flownexus.Prelude.Int.{pos}
use flownexus.Text.{codes}
use flownexus.Models.Rows.{Resource, Event, opaque, ResourceType}
use flownexus.Models.Db.{Db}
use flownexus.Models.Device.{bare_resource}
use flownexus.Access.Middleware.{SiteKey, site_context}
use flownexus.Access.Permissions.{has_site_permission, site_filtered_endpoints}
use flownexus.Frontend.Readings.{Filters, filters_of, last_day, sheet, export_values, export_events}
use flownexus.Frontend.Readings.Isolation.{MayView, EachRow, exports-MayView}
use flownexus.Frontend.Pump.{links_of, pm_sample_count, sample_count}
use flownexus.Frontend.Pump.Samples.{sample_count-eq-pm_sample_count}
use flownexus.Tests.Data.{deployment, plain_user, north}

abbrev pub raw_type : ResourceType
raw_type = record {
  object_id = pos 10300;
  resource_id = pos 1;
  name = "pm_press_raw";
  data_type = opaque;
}

abbrev pub reading : Resource
reading = record (bare_resource "urn:imei:1" 9) {
  binary_value = some (7 ∷ 8 ∷ 9 ∷ []);
  timestamp_created = 20;
}

-- One pump event of each device.
abbrev pub measured : Db
measured = record deployment {
  resource_types = record { rows = (9, raw_type) ∷ []; next_id = 10 };
  resources = record {
    rows =
        (1, reading) ∷ (2, record (bare_resource "urn:imei:2" 9) { timestamp_created = 21 }) ∷ [];
    next_id = 3;
  };
  events = record {
    rows =
        (1, record { endpoint = "urn:imei:1"; event_type = codes "10300"; time = 20 })
        ∷ (2, record { endpoint = "urn:imei:2"; event_type = codes "10300"; time = 21 })
        ∷ [];
    next_id = 3;
  };
  event_resources = record {
    rows = (1, record { event = 1; resource = 1 }) ∷ (2, record { event = 2; resource = 2 }) ∷ [];
    next_id = 3;
  };
}

abbrev today : Filters
unfolding filters_of
today = filters_of none none none last_day 30

-- The reading of the other site is left out.
own_reading : export_values measured 7 plain_user north today ≡ sheet ((1, reading) ∷ [])
unfolding export_values has_site_permission site_filtered_endpoints today
own_reading = refl

exports-MayView_example :
    EachRow
      (λ (x : ℕ × Resource). MayView measured 7 x.1.endpoint)
      (export_values measured 7 plain_user north today)
    × EachRow
        (λ (x : ℕ × Event). MayView measured 7 x.1.endpoint)
        (export_events measured 7 plain_user north today)
unfolding site_context
exports-MayView_example =
    exports-MayView measured 7 plain_user refl none (some (SiteKey.id 1)) north (omega arith) refl
      today

three_samples : sample_count measured 1 ≡ 3
unfolding sample_count
three_samples = refl

sample_count-eq-pm_sample_count_example :
    sample_count measured 1 ≡ pm_sample_count measured (links_of measured 1)
sample_count-eq-pm_sample_count_example = sample_count-eq-pm_sample_count measured 1
