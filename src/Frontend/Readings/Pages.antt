-- ===== src/Frontend/Readings/Pages.antt =====
-- `data_analysis` with `format=json`: a page of readings or of events. The paginator and the orders
-- that the ORM makes of a sort column are parameters.
use flownexus.Prelude.{
  ℕ, String, Bool, true, false, not, Option, none, some, List, [], ◌∷◌, map, is_some, length,
  sort_by, if◌then◌else◌, text_key,
}
use flownexus.Table.{select, get}
use flownexus.Models.Rows.{
  User, DataType, integer, float, time, boolean, ResourceType, Resource, Event,
  can_view_data_analysis,
}
use flownexus.Models.Db.{Db}
use flownexus.Models.Exec.{Result, ok, err, does_not_exist, field_error, type_error}
use flownexus.Models.Device.{Value, bytes, get_value}
use flownexus.Access.Middleware.{Context}
use flownexus.Access.Permissions.{has_site_permission}
use flownexus.Frontend.Paging.{RowPage, Paginator}
use flownexus.Frontend.Readings.{Filters, analysed, values_of, matches_event}
use flownexus.Frontend.Readings.Cells.{ResData, res_data, both}

-- A point of the chart.
pub record Point : Type 0 where
  pub t : ℕ
  pub y : Value
  pub endpoint : String

pub record ValuePage : Type 0 where
  pub points : List Point
  pub multi_endpoint : Bool
  pub is_numeric : Bool
  pub page : RowPage (ℕ × Resource)
  pub count : ℕ

unfoldable pub numeric : DataType → Bool
numeric integer = true
numeric float = true
numeric time = true
numeric boolean = true
numeric _ = false

abbrev pub value_of : Option ResourceType → Resource → Value
value_of none r = Value.null
value_of (some rt) r = get_value rt r

-- `JsonResponse` cannot write bytes.
abbrev pub as_json : Value → Result Value
as_json (bytes b) = err type_error
as_json v = ok v

abbrev pub point : ℕ × Resource → Value → Point
point (_, r) v = record { t = r.timestamp_created; y = v; endpoint = r.endpoint }

abbrev pub pointed : ℕ × Resource → Result Value → Result Point
pointed x (ok v) = ok (point x v)
pointed x (err e) = err e

unfoldable pub points : Db → List (ℕ × Resource) → Result (List Point)
unfolding get_value
points db [] = ok []
points db (x ∷ rest) =
    both (λ p ps. p ∷ ps)
      (pointed x (as_json (value_of (get x.1.resource_type db.resource_types) x.1)))
      (points db rest)

-- `ResourceType.objects.get(id=…)`, where the request names a type.
unfoldable pub chosen_type : Db → Option ℕ → Result (Option ResourceType)
chosen_type db none = ok none
chosen_type db (some k) = elim (get k db.resource_types) [
  | none ↦ err does_not_exist
  | some rt ↦ ok (some rt)
]

abbrev pub is_numeric_type : Option ResourceType → Bool
is_numeric_type none = false
is_numeric_type (some rt) = numeric rt.data_type

abbrev pub page_with :
    Filters → Option ResourceType → ℕ → RowPage (ℕ × Resource) → List Point → ValuePage
page_with f rt count page shown = record {
  points = shown;
  multi_endpoint = not (is_some f.endpoint_id);
  is_numeric = is_numeric_type rt;
  page = page;
  count = count;
}

-- An entry of the list of events.
pub record EventEntry : Type 0 where
  pub id : ℕ
  pub endpoint : String
  pub type : List ℕ
  pub time : ℕ
  pub res_data : ResData

unfoldable pub event_entry : Db → ℕ × Event → EventEntry
unfolding res_data
event_entry db (k, e) = record {
  id = k;
  endpoint = e.endpoint;
  type = e.event_type;
  time = e.time;
  res_data = res_data db k;
}

-- What the ORM makes of `order_by`: an order of the events, or `FieldError`.
abbrev pub Orders : Type 0
Orders = String → Bool → Option (ℕ × Event → ℕ × Event → Bool)

module _ (p : Paginator) (db : Db) (u : ℕ) (user : User) (c : Context) (f : Filters) where
  abbrev pub values_page : Option String → RowPage (ℕ × Resource)
  values_page number = p.get_page (ℕ × Resource) 100 number (values_of db (analysed db u user c) f)

  abbrev pub counted : ℕ
  counted = length (values_of db (analysed db u user c) f)

  abbrev pub values_with :
      Option String → Result (Option ResourceType) → Result (List Point) → Result (Option ValuePage)
  values_with number (err e) shown = err e
  values_with number (ok rt) (err e) = err e
  values_with number (ok rt) (ok shown) =
      ok (some (page_with f rt counted (values_page number) shown))

  -- Mode `values`; `none` is the answer 403.
  unfoldable pub data_values : Option String → Result (Option ValuePage)
  unfolding values_of chosen_type points
  data_values number =
      if has_site_permission db u user c can_view_data_analysis
      then values_with number (chosen_type db f.resource_type_id)
          (points db (values_page number).object_list)
      else ok none

  abbrev pub events_with :
      Option String
      → Option (ℕ × Event → ℕ × Event → Bool)
      → Result (Option (List EventEntry × RowPage (ℕ × Event)))
  events_with number none = err field_error
  events_with number (some le) =
      let events = sort_by le (select (matches_event (analysed db u user c) f) db.events.rows) in
      let page = p.get_page (ℕ × Event) 50 number events in
      ok (some (map (event_entry db) page.object_list, page))

  -- Mode `events`: `column` and `ascending` are the parameters `sort` and `dir`.
  unfoldable pub data_events :
      Orders
      → String
      → Bool
      → Option String
      → Result (Option (List EventEntry × RowPage (ℕ × Event)))
  unfolding event_entry
  data_events order_by column ascending number =
      if has_site_permission db u user c can_view_data_analysis
      then events_with number (order_by column ascending)
      else ok none
