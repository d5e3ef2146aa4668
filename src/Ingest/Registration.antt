-- ===== src/Ingest/Registration.antt =====
-- `RegistrationEventSerializer.create`: the history of registration events and the state of the
-- endpoint. A validated event holds its time in milliseconds.
use flownexus.Prelude.{
  ℕ, String, Bool, true, false, not, ◌&&◌, Option, none, some, [], ◌∷◌, ◌==◌, text_key,
  if◌then◌else◌,
}
use flownexus.Prelude.Int.{ℤ, pos, int_key, max_ℤ, ltb_ℤ}
use flownexus.Table.{Rows, get, update_where}
use flownexus.Models.Rows.{
  ResourceType, Resource, Endpoint, read_device_object, process_pending_operations,
}
use flownexus.Models.Db.{Db}
use flownexus.Models.Exec.{Action, gets, need, modify, when, delay, ◌>>=◌, ◌>>◌, does_not_exist}
use flownexus.Models.Device.{find_type, bare_resource, create_resource}
use flownexus.Ingest.Resource.{get_or_create_endpoint}

-- The keys of `EVENT_RESOURCE_IDS`.
pub data RegistrationEvent : Type 0 where
  registered unregistered updated : RegistrationEvent

abbrev pub event_resource_id : RegistrationEvent → ℤ
event_resource_id registered = pos 0
event_resource_id unregistered = pos 1
event_resource_id updated = pos 2

-- Registration events are resources of the internal object 10240.
abbrev pub registration_object : ℤ
registration_object = pos 10240

abbrev of_object : ℤ → Option ResourceType → Bool
of_object obj none = false
of_object obj (some rt) = rt.object_id == obj

-- `filter(endpoint=…, resource_type__object_id=10240)`
abbrev pub is_event_of : Db → String → Resource → Bool
is_event_of db ep r =
    r.endpoint == ep && of_object registration_object (get r.resource_type db.resource_types)

-- `Max` leaves out missing values.
abbrev pub newer : Option ℤ → Option ℤ → Option ℤ
newer none b = b
newer (some a) none = some a
newer (some a) (some b) = some (max_ℤ a b)

-- `aggregate(Max("int_value"))`
abbrev pub max_time : (Resource → Bool) → Rows ℕ Resource → Option ℤ
max_time p [] = none
max_time p ((k, r) ∷ rest) = newer (if p r then r.int_value else none) (max_time p rest)

unfoldable pub latest_event : String → Db → Option ℤ
latest_event ep db = max_time (is_event_of db ep) db.resources.rows

abbrev pub is_older : ℤ → Option ℤ → Bool
is_older time none = false
is_older time (some latest) = ltb_ℤ time latest

abbrev pub is_unregistered : RegistrationEvent → Bool
is_unregistered unregistered = true
is_unregistered _ = false

abbrev pub is_registered : RegistrationEvent → Bool
is_registered registered = true
is_registered _ = false

abbrev pub write_registered : String → Bool → Rows String Endpoint → Rows String Endpoint
write_registered ep flag = update_where (λ k _. k == ep) (λ e. record e { registered = flag })

-- `endpoint.save()` after `endpoint.registered = …`
unfoldable pub set_registered : String → Bool → Action
set_registered ep flag =
    modify (λ db. record db { endpoints = write_registered ep flag db.endpoints })

-- What follows an event that is not older than the last one.
unfoldable pub apply_event : String → RegistrationEvent → Action
unfolding set_registered
apply_event ep event = do
  set_registered ep (not (is_unregistered event))
  when (is_registered event) (delay (read_device_object ep))
  when (not (is_unregistered event)) (delay (process_pending_operations ep))

-- The event's row, and what the event does.
unfoldable pub store_event : String → RegistrationEvent → ℤ → ℕ → Action
unfolding latest_event create_resource apply_event
store_event ep event time rt = do
  latest ← gets (latest_event ep)
  create_resource none (record (bare_resource ep rt) { int_value = some time })
  when (not (is_older time latest)) (apply_event ep event)

unfoldable pub create_registration : String → RegistrationEvent → ℤ → Action
unfolding get_or_create_endpoint find_type store_event
create_registration ep event time = do
  get_or_create_endpoint ep
  found ← gets (find_type registration_object (event_resource_id event))
  (rt, _) ← need does_not_exist found
  store_event ep event time rt
