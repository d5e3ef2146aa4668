-- ===== src/Models/Device.antt =====
-- `ResourceType`, `Resource` and `EndpointOperation`: the value column of a data type, and `save` of
-- new rows.
use flownexus.Prelude.{ℕ, String, Bool, ◌&&◌, Option, none, some, List, ◌==◌, length, text_key}
use flownexus.Prelude.Int.{ℤ, int_key}
use flownexus.Table.{first, insert}
use flownexus.Models.Rows.{
  DataType, time, string, opaque, integer, float, boolean, none_type, other, ResourceType, Resource,
  queued,
}
use flownexus.Models.Db.{Db}
use flownexus.Models.Exec.{Exec, pure}

-- The value columns of `Resource`.
pub data Field : Type 0 where
  int_value float_value str_value binary_value : Field

-- `dict(TYPE_CHOICES).get(data_type)`
unfoldable pub value_field : DataType → Option Field
value_field time = some int_value
value_field string = some str_value
value_field integer = some int_value
value_field float = some float_value
value_field boolean = some int_value
value_field opaque = some binary_value
value_field none_type = none
value_field (other t) = none

-- What `getattr` finds in a value column.
pub data Value : Type 0 where
  null : Value
  number : ℤ → Value
  decimal : String → Value
  text : String → Value
  bytes : List ℕ → Value

abbrev pub or_null : {A : Type 0} → (A → Value) → Option A → Value
or_null f none = null
or_null f (some a) = f a

unfoldable pub column : Field → Resource → Value
column int_value r = or_null number r.int_value
column float_value r = or_null decimal r.float_value
column str_value r = or_null text r.str_value
column binary_value r = or_null bytes r.binary_value

abbrev column_of : Option Field → Resource → Value
column_of none r = null
column_of (some f) r = column f r

-- `Resource.get_value`
unfoldable pub get_value : ResourceType → Resource → Value
unfolding value_field column
get_value rt r = column_of (value_field rt.data_type) r

-- `Resource.get_binary_size`
unfoldable pub get_binary_size : Resource → Option ℕ
get_binary_size r = elim r.binary_value [ none ↦ none | some b ↦ some (length b) ]

-- `ResourceType.objects.filter(object_id=…, resource_id=…).first()`; the columns are unique together.
abbrev pub has_path : ℤ → ℤ → ℕ → ResourceType → Bool
has_path obj res _ rt = rt.object_id == obj && rt.resource_id == res

unfoldable pub find_type : ℤ → ℤ → Db → Option (ℕ × ResourceType)
find_type obj res db = first (has_path obj res) db.resource_types.rows

-- A resource with no value yet.
abbrev pub bare_resource : String → ℕ → Resource
bare_resource ep rt = record {
  endpoint = ep;
  resource_type = rt;
  int_value = none;
  float_value = none;
  str_value = none;
  binary_value = none;
  timestamp_created = 0;
}

abbrev pub or_else : {A : Type 0} → Option A → A → A
or_else none d = d
or_else (some a) d = a

-- `Resource.save` of a new row: a time that was not given is the time of the call.
unfoldable pub create_resource : Option ℕ → Resource → Exec ℕ
create_resource ts r db = pure db.resources.next_id (record db {
  resources = insert (record r { timestamp_created = or_else ts db.now }) db.resources;
})

-- `EndpointOperation.objects.create(resource=…)` with the defaults of the other columns.
unfoldable pub create_operation : ℕ → Exec ℕ
create_operation resource db = pure db.operations.next_id (record db {
  operations =
      insert
        (record {
          resource = resource;
          operation_type = "";
          instance_id = 0;
          status = queued;
          transmit_counter = 0;
          timestamp_created = db.now;
          last_attempt = none;
        })
        db.operations;
})
