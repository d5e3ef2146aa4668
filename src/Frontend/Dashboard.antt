-- ===== src/Frontend/Dashboard.antt =====
-- The view `dashboard` of server/django/frontend/views.py. Times are milliseconds since 1970 in UTC,
-- so that a day, an hour and five minutes start at multiples of their length; the clock stands past
-- the first charts of 1970, where the subtraction would stop at 0.
pub mod Chart
pub mod Versions
use flownexus.Prelude.{
  ℕ, zero, suc, ◌+◌, ◌-◌, ◌*◌, ◌/◌, String, Bool, true, false, ◌&&◌, not, Option, none, some, List,
  [], ◌∷◌, length, ◌||◌, ◌==◌, nat_key, text_key, if◌then◌else◌, is_some, leb, ltb, sort_by,
}
use flownexus.Prelude.Int.{pos, int_key}
use flownexus.Table.{Rows, select, exists, count, find, get}
use flownexus.Models.Rows.{User, Endpoint, ResourceType, Resource, can_view_overview}
use flownexus.Models.Db.{Db}
use flownexus.Models.Device.{has_path}
use flownexus.Access.Middleware.{Context}
use flownexus.Access.Permissions.{has_site_permission, site_filtered_endpoints}

-- The values of `view`; any other text is `hourly`.
pub data ViewMode : Type 0 where
  daily five_min hourly : ViewMode

abbrev pub minute : ℕ
minute = 60 * 1000

-- `delta`
abbrev pub delta_of : ViewMode → ℕ
delta_of daily = 24 * 60 * minute
delta_of five_min = 5 * minute
delta_of hourly = 60 * minute

abbrev pub num_steps : ViewMode → ℕ
num_steps daily = 10
num_steps five_min = 48
num_steps hourly = 48

-- `end_date` is the time rounded down, and the last step begins there.
abbrev pub start_date : ViewMode → ℕ → ℕ
start_date mode now = now / delta_of mode * delta_of mode - (num_steps mode - 1) * delta_of mode

abbrev pub of_endpoints : Rows String Endpoint → Resource → Bool
of_endpoints eps r = is_some (find r.endpoint eps)

-- `filter(timestamp_created__gte=…, timestamp_created__lt=…, endpoint__in=…)`
abbrev pub in_step : Rows String Endpoint → ℕ → ℕ → ℕ → Resource → Bool
in_step eps from to _ r =
    of_endpoints eps r && leb from r.timestamp_created && ltb r.timestamp_created to

-- The loop over the steps: each with its begin and its count.
unfoldable pub chart : Rows String Endpoint → Rows ℕ Resource → ℕ → ℕ → ℕ → List (ℕ × ℕ)
chart eps rows delta zero from = []
chart eps rows delta (suc n) from =
    (from, count (in_step eps from (from + delta)) rows) ∷ chart eps rows delta n (from + delta)

-- The resources that report a firmware version (3/0/3) of one of the endpoints.
abbrev pub is_version_type : Option ResourceType → Bool
is_version_type none = false
is_version_type (some rt) = rt.object_id == pos 3 && rt.resource_id == pos 3

abbrev pub reports_version : Db → Rows String Endpoint → ℕ → Resource → Bool
reports_version db eps _ r =
    is_version_type (get r.resource_type db.resource_types) && of_endpoints eps r

-- `values("endpoint").annotate(max_id=Max("id"))`: the rows with the greatest key of its endpoint.
abbrev pub is_later : ℕ → Resource → ℕ → Resource → Bool
is_later k r j s = s.endpoint == r.endpoint && ltb k j

unfoldable pub latest_reports : Db → Rows String Endpoint → Rows ℕ Resource
latest_reports db eps =
    let reports = select (reports_version db eps) db.resources.rows in
    select (λ k r. not (exists (is_later k r) reports)) reports

-- A version; a report may be without one.
abbrev pub Version : Type 0
Version = Option String

abbrev pub same_version : Version → Version → Bool
same_version none none = true
same_version (some v) (some w) = v == w
same_version _ _ = false

-- `Count("str_value")` leaves out missing values.
abbrev pub weight : Version → ℕ
weight none = 0
weight (some v) = 1

-- One report is counted under its version.
unfoldable pub tally : Version → List (Version × ℕ) → List (Version × ℕ)
tally v [] = (v, weight v) ∷ []
tally v ((w, n) ∷ rest) =
    let later = tally v rest in
    if same_version w v then (w, n + weight v) ∷ rest else (w, n) ∷ later

unfoldable pub tallies : Rows ℕ Resource → List (Version × ℕ)
unfolding tally
tallies [] = []
tallies ((k, r) ∷ rest) = tally r.str_value (tallies rest)

abbrev pub more : Version × ℕ → Version × ℕ → Bool
more (_, a) (_, b) = leb b a

pub record Dashboard : Type 0 where
  pub total_devices : ℕ
  pub registered_devices : ℕ
  pub offline_devices : ℕ
  pub chart_steps : List (ℕ × ℕ)
  pub firmware_distribution : List (Version × ℕ)

abbrev pub is_registered_row : String → Endpoint → Bool
is_registered_row _ e = e.registered

unfoldable pub dashboard_of : Db → Rows String Endpoint → ViewMode → Dashboard
unfolding chart latest_reports tallies
dashboard_of db eps mode = record {
  total_devices = length eps;
  registered_devices = count is_registered_row eps;
  offline_devices = length eps - count is_registered_row eps;
  chart_steps =
      chart eps db.resources.rows (delta_of mode) (num_steps mode) (start_date mode db.now);
  firmware_distribution = sort_by more (tallies (latest_reports db eps));
}

-- `dashboard`; `none` is the answer 403.
unfoldable pub dashboard : Db → ℕ → User → Context → ViewMode → Option Dashboard
unfolding dashboard_of
dashboard db u user c mode =
    if has_site_permission db u user c can_view_overview
    then some (dashboard_of db (site_filtered_endpoints db u user c (some can_view_overview)) mode)
    else none
