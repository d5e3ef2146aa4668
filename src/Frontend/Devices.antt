-- ===== src/Frontend/Devices.antt =====
-- The view `devices` of server/django/frontend/views.py: the device list with the newest value of
-- each device detail. The selection of the query is `none` where the parameter is missing.
pub mod Collected
pub mod Newest
pub mod Isolation
use flownexus.Prelude.{
  ℕ, suc, String, Bool, true, false, ◌&&◌, ◌||◌, Option, none, some, List, [], ◌∷◌, map, any, ◌==◌,
  text_key, nat_key, if◌then◌else◌, is_some, leb, ltb, sort_by, head, filter,
}
use flownexus.Prelude.Int.{ℤ, pos, int_key, leb_ℤ}
use flownexus.Text.{text_le}
use flownexus.Table.{Rows, select, count, find, get}
use flownexus.Table.Sorted.{then_by, first_of}
use flownexus.Models.Rows.{User, Endpoint, ResourceType, Resource, can_view_overview}
use flownexus.Models.Db.{Db}
use flownexus.Models.Device.{Field, value_field, Value, null, number, decimal, text, bytes, column}
use flownexus.Access.Middleware.{Context}
use flownexus.Access.Permissions.{has_site_permission, site_filtered_endpoints}

-- The attributes of `DEVICE_DETAIL_RESOURCES`, and their paths.
pub data Detail : Type 0 where
  manufacturer model_number serial_number firmware_version power_source_v battery_level : Detail

abbrev pub resource_of : Detail → ℤ
resource_of manufacturer = pos 0
resource_of model_number = pos 1
resource_of serial_number = pos 2
resource_of firmware_version = pos 3
resource_of power_source_v = pos 7
resource_of battery_level = pos 9

abbrev pub details : List Detail
details =
    manufacturer ∷ model_number ∷ serial_number ∷ firmware_version ∷ power_source_v ∷ battery_level
    ∷ []

-- `value in (None, "")` is shown as no value.
abbrev pub shown_value : Value → Option Value
shown_value null = none
shown_value (text t) = if t == "" then none else some (text t)
shown_value v = some v

abbrev shown_column : Option Field → Resource → Option Value
shown_column none r = none
shown_column (some f) r = shown_value (column f r)

-- `_resource_display_value`
unfoldable pub resource_display_value : ResourceType → Resource → Option Value
unfolding value_field column
resource_display_value rt r = shown_column (value_field rt.data_type) r

-- A resource with its type, as `select_related` reads it.
pub record Reading : Type 0 where
  pub id : ℕ
  pub resource : Resource
  pub type : ResourceType

abbrev pub with_type : ℕ → Resource → Option ResourceType → List Reading → List Reading
with_type k r none rest = rest
with_type k r (some rt) rest = record { id = k; resource = r; type = rt } ∷ rest

abbrev pub readings : Db → Rows ℕ Resource → List Reading
readings db [] = []
readings db ((k, r) ∷ rest) =
    with_type k r (get r.resource_type db.resource_types) (readings db rest)

-- The filter on `DEVICE_DETAIL_RESOURCES`.
abbrev pub is_detail : Rows String Endpoint → Reading → Bool
is_detail eps x =
    is_some (find x.resource.endpoint eps)
    && (x.type.object_id == pos 3 && any (λ d. x.type.resource_id == resource_of d) details)

-- `order_by("endpoint_id", …object_id, …resource_id, "-id")`
abbrev pub detail_le : Reading → Reading → Bool
detail_le =
    then_by (λ x y. text_le x.resource.endpoint y.resource.endpoint)
      (then_by (λ x y. leb_ℤ x.type.object_id y.type.object_id)
        (then_by (λ x y. leb_ℤ x.type.resource_id y.type.resource_id) (λ x y. leb y.id x.id)))

-- A key of `latest_values`.
pub record Slot : Type 0 where
  pub endpoint : String
  pub object_id : ℤ
  pub resource_id : ℤ

abbrev pub same_slot : Slot → Slot → Bool
same_slot a b =
    a.endpoint == b.endpoint && (a.object_id == b.object_id && a.resource_id == b.resource_id)

abbrev pub slot_of : Reading → Slot
slot_of x = record {
  endpoint = x.resource.endpoint;
  object_id = x.type.object_id;
  resource_id = x.type.resource_id;
}

-- The dictionary `latest_values`; a key may hold `None`.
abbrev pub Latest : Type 0
Latest = List (Slot × Option Value)

abbrev pub lookup : Slot → Latest → Option (Option Value)
lookup s [] = none
lookup s ((t, v) ∷ rest) = if same_slot t s then some v else lookup s rest

-- `if key not in latest_values: …`
unfoldable pub remember : Reading → Latest → Latest
unfolding resource_display_value
remember x found =
    if is_some (lookup (slot_of x) found)
    then found
    else (slot_of x, resource_display_value x.type x.resource) ∷ found

-- The loop over the resources.
unfoldable pub collect : List Reading → Latest → Latest
unfolding resource_display_value
collect [] found = found
collect (x ∷ xs) found = collect xs (
    if is_some (lookup (slot_of x) found)
    then found
    else (slot_of x, resource_display_value x.type x.resource) ∷ found)

-- `latest_values.get(…)`
abbrev pub or_nothing : Option (Option Value) → Option Value
or_nothing none = none
or_nothing (some v) = v

abbrev pub detail_slot : String → Detail → Slot
detail_slot ep d = record { endpoint = ep; object_id = pos 3; resource_id = resource_of d }

unfoldable pub latest_values : Db → Rows String Endpoint → Latest
unfolding collect
latest_values db eps =
    collect (sort_by detail_le (filter (is_detail eps) (readings db db.resources.rows))) []

-- `_enrich_endpoints_with_details`, for one endpoint and attribute.
unfoldable pub detail_value : Db → Rows String Endpoint → String → Detail → Option Value
unfolding latest_values
detail_value db eps ep d = or_nothing (lookup (detail_slot ep d) (latest_values db eps))

-- `Max("resource__timestamp_created")`
abbrev pub later_of : ℕ → Option ℕ → Option ℕ
later_of t none = some t
later_of t (some u) = some (if leb u t then t else u)

abbrev pub last_seen : String → Rows ℕ Resource → Option ℕ
last_seen ep [] = none
last_seen ep ((k, r) ∷ rest) =
    let later = last_seen ep rest in
    if r.endpoint == ep then later_of r.timestamp_created later else later

-- A device of the list.
pub record Device : Type 0 where
  pub name : String
  pub endpoint : Endpoint
  pub last_seen : Option ℕ
  pub telemetry_count : ℕ
  pub detail : Detail → Option Value

unfoldable pub device_of : Db → Rows String Endpoint → String × Endpoint → Device
unfolding detail_value
device_of db eps (ep, e) = record {
  name = ep;
  endpoint = e;
  last_seen = last_seen ep db.resources.rows;
  telemetry_count = count (λ _ r. r.endpoint == ep) db.resources.rows;
  detail = detail_value db eps ep;
}

abbrev pub by_endpoint : String × Endpoint → String × Endpoint → Bool
by_endpoint (a, _) (b, _) = text_le a b

-- `next((…), endpoints[0] if endpoints else None)`
abbrev pub or_head : Option Device → List Device → Option Device
or_head none ds = head ds
or_head (some d) ds = some d

abbrev pub is_selected : Option String → Device → Bool
is_selected none d = false
is_selected (some name) d = d.name == name

unfoldable pub select_device : Option String → List Device → Option Device
select_device selected ds = or_head (first_of (is_selected selected) ds) ds

abbrev pub listed : Db → ℕ → User → Context → Rows String Endpoint
listed db u user c =
    sort_by by_endpoint (site_filtered_endpoints db u user c (some can_view_overview))

-- `devices`: the list and the selected device, or `none` for the answer 403.
unfoldable pub devices :
    Db → ℕ → User → Context → Option String → Option (List Device × Option Device)
unfolding device_of select_device
devices db u user c selected =
    let eps = listed db u user c in
    let ds = map (device_of db eps) eps in
    if has_site_permission db u user c can_view_overview
    then some (ds, select_device selected ds)
    else none
