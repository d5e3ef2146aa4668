-- ===== src/Ingest/Resource.antt =====
-- `HandleResourceMixin` (base.py) and the three serializers that use it.
use flownexus.Prelude.{
  ℕ, String, Bool, true, false, ◌||◌, Option, none, some, [], ◌∷◌, ◌++◌, ◌==◌, text_key,
  if◌then◌else◌, is_some,
}
use flownexus.Prelude.Int.{ℤ, pos, int_key}
use flownexus.Text.Number.{str_int}
use flownexus.Text.Hex.{fromhex}
use flownexus.Table.{insert, find}
use flownexus.Models.Rows.{DataType, opaque, ResourceType, Resource}
use flownexus.Models.Exec.{
  Exec, Action, pure, raise, gets, need, modify, done, when, ◌>>=◌, ◌>>◌, validation_error,
  key_error, value_error,
}
use flownexus.Models.Device.{
  Field, int_value, float_value, str_value, binary_value, value_field, find_type, bare_resource,
  create_resource,
}
use flownexus.Fota.{to_int, check_column, is_version, handle_fota}

-- `KIND_CHOICES`
pub data Kind : Type 0 where
  single_resource multi_resource : Kind

-- A validated `ResourceDataSerializer`; `value` is not required.
pub record ResourceData : Type 0 where
  pub kind : Kind
  pub id : ℤ
  pub type : DataType
  pub value : Option String

-- `Endpoint.objects.get_or_create(endpoint=ep)`
unfoldable pub get_or_create_endpoint : String → Action
get_or_create_endpoint ep = modify (λ db. if is_some (find ep db.endpoints) then db else record db {
  endpoints = db.endpoints ++ (ep, record { registered = false; site = none }) ∷ [];
})

-- `create_event`: the event's type is the object's number as text.
unfoldable pub create_event : String → ℤ → Exec ℕ
create_event ep event_type db = pure db.events.next_id (record db {
  events =
      insert (record { endpoint = ep; event_type = str_int event_type; time = db.now }) db.events;
})

abbrev pub same_field : Field → Field → Bool
same_field int_value int_value = true
same_field float_value float_value = true
same_field str_value str_value = true
same_field binary_value binary_value = true
same_field _ _ = false

abbrev pub is_opaque : DataType → Bool
is_opaque opaque = true
is_opaque _ = false

unfoldable pub link_event : Option ℕ → ℕ → Action
link_event none resource = done
link_event (some event) resource = modify (λ db. record db {
  event_resources = insert (record { event = event; resource = resource }) db.event_resources;
})

module _ (is_float : String → Bool) where
  -- What `Resource.objects.create(**{field: value})` makes of the text.
  unfoldable pub store_text : Field → String → Resource → Exec Resource
  unfolding check_column
  store_text int_value value r = do
    z ← to_int value
    check_column z
    pure (record r { int_value = some z })
  store_text float_value value r =
      if is_float value then pure (record r { float_value = some value }) else raise value_error
  store_text str_value value r = pure (record r { str_value = some value })
  store_text binary_value value r = raise value_error

  -- The row that is stored, by the resource type's data type.
  unfoldable pub typed_row : ResourceType → Field → String → Resource → Exec Resource
  unfolding store_text
  typed_row rt field value r =
      if is_opaque rt.data_type
      then (do b ← need value_error (fromhex value); pure (record r { binary_value = some b }))
      else store_text field value r

  -- The column of the data type that was sent, where it is the resource type's own.
  abbrev pub agreed : Option Field → Option Field → Exec Field
  agreed none expected = raise validation_error
  agreed (some field) none = raise validation_error
  agreed (some field) (some expected) =
      if same_field field expected then pure field else raise validation_error

  -- The data type's column, or the validation error.
  unfoldable pub check_type : ResourceType → ResourceData → Exec Field
  unfolding value_field
  check_type rt res = agreed (value_field res.type) (value_field rt.data_type)

  unfoldable pub store_resource :
      Option ℕ → String → ℕ → ResourceType → ResourceData → Option ℕ → Action
  unfolding check_type typed_row create_resource link_event handle_fota
  store_resource event ep rt_id rt res ts = do
    field ← check_type rt res
    value ← need key_error res.value
    row ← typed_row rt field value (bare_resource ep rt_id)
    created ← create_resource ts row
    link_event event created
    when (is_version rt || rt.object_id == pos 5) (handle_fota ep rt value)

  -- An unknown resource type is passed over.
  unfoldable pub store_found :
      Option ℕ → String → ResourceData → Option ℕ → Option (ℕ × ResourceType) → Action
  unfolding store_resource
  store_found event ep res ts none = done
  store_found event ep res ts (some (rt_id, rt)) = store_resource event ep rt_id rt res ts

  abbrev pub if_single : Kind → Action → Action
  if_single multi_resource m = done
  if_single single_resource m = m

  -- `handle_resource`; `event` is `self.event`.
  unfoldable pub handle_resource : Option ℕ → String → ℤ → ResourceData → Option ℕ → Action
  unfolding find_type store_found
  handle_resource event ep obj_id res ts =
      if_single res.kind
        do found ← gets (find_type obj_id res.id); store_found event ep res ts found
