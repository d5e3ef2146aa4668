-- ===== src/Frontend/Readings/Values.antt =====
-- The sheet of `data_analysis_export` in mode `values`.
use flownexus.Prelude.{ℕ, String, Bool, Option, none, some, map, not, is_some, if◌then◌else◌}
use flownexus.Table.{get}
use flownexus.Models.Rows.{User, ResourceType, Resource}
use flownexus.Models.Db.{Db}
use flownexus.Models.Device.{Value, null, get_value}
use flownexus.Access.Middleware.{Context}
use flownexus.Frontend.Readings.{Filters, Export, not_allowed, too_long, sheet, export_values}

-- A row of the sheet; the endpoint is left out where one is chosen.
pub record ValueRow : Type 0 where
  pub time : ℕ
  pub endpoint : Option String
  pub type_name : String
  pub value : Value

abbrev pub name_of : Option ResourceType → String
name_of none = ""
name_of (some rt) = rt.name

abbrev pub typed_value : Option ResourceType → Resource → Value
typed_value none r = null
typed_value (some rt) r = get_value rt r

unfoldable pub value_row : Db → Bool → ℕ × Resource → ValueRow
unfolding get_value
value_row db multi_endpoint (_, r) =
    let rt = get r.resource_type db.resource_types in
    record {
      time = r.timestamp_created;
      endpoint = if multi_endpoint then some r.endpoint else none;
      type_name = name_of rt;
      value = typed_value rt r;
    }

abbrev pub each_row : {A B : Type 0} → (A → B) → Export A → Export B
each_row f not_allowed = not_allowed
each_row f too_long = too_long
each_row f (sheet rows) = sheet (map f rows)

unfoldable pub value_export : Db → ℕ → User → Context → Filters → Export ValueRow
unfolding export_values value_row
value_export db u user c f =
    each_row (value_row db (not (is_some f.endpoint_id))) (export_values db u user c f)
