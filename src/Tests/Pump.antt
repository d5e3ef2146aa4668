-- ===== src/Tests/Pump.antt =====
-- The pages and the export of the pump monitor at a concrete database.
use flownexus.Prelude.{
  ℕ, ◌≡◌, refl, false, none, some, List, [], ◌∷◌, take, arith, inl, inr, suc, zero,
}
use flownexus.Table.Search.{Elem}
use flownexus.Access.Middleware.{SiteKey, site_context}
use flownexus.Access.Permissions.{has_site_permission, site_filtered_endpoints}
use flownexus.Frontend.Paging.{Paginator, HoldsRows}
use flownexus.Frontend.Readings.{last_day}
use flownexus.Frontend.Readings.Isolation.{MayView}
use flownexus.Frontend.Pump.{by_time}
use flownexus.Frontend.Pump.Detail.{pump_detail}
use flownexus.Frontend.Pump.Entries.{Query, pump_list}
use flownexus.Frontend.Pump.Export.{exported, page_events, pump_monitor_export}
use flownexus.Frontend.Pump.Columns.{Columns, pump_monitor_export-Columns}
use flownexus.Frontend.Pump.Limits.{Limits, pump_monitor_export-Limits}
use flownexus.Frontend.Pump.Isolation.{OfShown, OfEntries, pump_monitor-MayView}
use flownexus.Tests.Data.{plain_user, north}
use flownexus.Tests.Readings.{measured}

-- The first page, whatever page is asked for.
abbrev pub first_page : Paginator
first_page = record {
  get_page = λ A n number rows. record {
    object_list = take n rows;
    has_next = false;
    has_previous = false;
    number = 1;
    num_pages = 1;
  };
}

take-Elem : {A : Type 0} (n : ℕ) (x : A) (rows : List A) → Elem x (take n rows) → Elem x rows
take-Elem zero x rows h = absurd h
take-Elem (suc n) x [] h = h
take-Elem (suc n) x (y ∷ rows) (inl e) = inl e
take-Elem (suc n) x (y ∷ rows) (inr h) = inr (take-Elem n x rows h)

pub first_page-HoldsRows : HoldsRows first_page
first_page-HoldsRows A n number rows x h = take-Elem n x rows h

abbrev newest_first : Query
newest_first = record {
  endpoint = none;
  range = last_day;
  column = by_time;
  ascending = false;
  page = none;
}

pump_monitor-MayView_example :
    OfShown (MayView measured 7) (pump_detail measured 7 plain_user north (some 1))
    × OfEntries (MayView measured 7) (pump_list first_page measured 7 plain_user north newest_first)
unfolding site_context
pump_monitor-MayView_example =
    pump_monitor-MayView measured 7 plain_user refl none (some (SiteKey.id 1)) north (omega arith)
      refl first_page newest_first (some 1) first_page-HoldsRows

-- The event of the other site is not exported.
one_column :
    pump_monitor_export measured 7 plain_user north none last_day
    ≡ exported (record {
      header = (20, "urn:imei:1") ∷ [];
      rows =
          record { sample_index = 0; hundredths = 0; cells = some 7 ∷ [] }
          ∷ record { sample_index = 1; hundredths = 2; cells = some 8 ∷ [] }
          ∷ record { sample_index = 2; hundredths = 4; cells = some 9 ∷ [] }
          ∷ [];
    })
unfolding pump_monitor_export has_site_permission site_filtered_endpoints
one_column = refl

pump_monitor_export-Columns_example :
    Columns measured
      (page_events measured 7 plain_user north none last_day)
      (pump_monitor_export measured 7 plain_user north none last_day)
pump_monitor_export-Columns_example =
    pump_monitor_export-Columns measured 7 plain_user north none last_day

pump_monitor_export-Limits_example :
    Limits measured
      (page_events measured 7 plain_user north none last_day)
      (pump_monitor_export measured 7 plain_user north none last_day)
pump_monitor_export-Limits_example =
    pump_monitor_export-Limits measured 7 plain_user north none last_day
