-- ===== src/Frontend/Pump/Entries.antt =====
-- `pump_monitor` with `format=json`: a page of the events, 50 to a page.
use flownexus.Prelude.{ℕ, String, Bool, Option, none, some, List, map, if◌then◌else◌, text_key}
use flownexus.Table.{find}
use flownexus.Models.Rows.{User, Event, can_view_data_analysis}
use flownexus.Models.Db.{Db}
use flownexus.Access.Middleware.{Context}
use flownexus.Access.Permissions.{has_site_permission}
use flownexus.Frontend.Paging.{RowPage, Paginator}
use flownexus.Frontend.Readings.{TimeRange, window, unless_all, analysed}
use flownexus.Frontend.Pump.{SortColumn, links_of, pm_sample_count, pump_events}
use flownexus.Frontend.Pump.Detail.{site_name}

-- An entry of the list.
pub record PumpEntry : Type 0 where
  pub id : ℕ
  pub endpoint : String
  pub site : String
  pub time : ℕ
  pub sample_count : ℕ

unfoldable pub entry_of : Db → ℕ × Event → PumpEntry
unfolding pm_sample_count
entry_of db (k, e) = record {
  id = k;
  endpoint = e.endpoint;
  site = site_name db (find e.endpoint db.endpoints);
  time = e.time;
  sample_count = pm_sample_count db (links_of db k);
}

-- What the request asks for; a sort column that is not in the whitelist is `by_time`.
pub record Query : Type 0 where
  pub endpoint : Option String
  pub range : TimeRange
  pub column : SortColumn
  pub ascending : Bool
  pub page : Option String

-- The entries, and the page that they are from; `none` is the answer 403.
unfoldable pub pump_list :
    Paginator → Db → ℕ → User → Context → Query → Option (List PumpEntry × RowPage (ℕ × Event))
unfolding pump_events window entry_of
pump_list p db u user c q =
    let (from, to) = window q.range db.now in
    let events =
      pump_events db (analysed db u user c) (unless_all q.endpoint) from to q.column q.ascending in
    let page = p.get_page (ℕ × Event) 50 q.page events in
    if has_site_permission db u user c can_view_data_analysis
    then some (map (entry_of db) page.object_list, page)
    else none
