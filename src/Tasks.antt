-- ===== src/Tasks.antt =====
-- The Celery tasks of server/django/sensordata/tasks.py. `send_operation` is two actions, since other
-- processes run while it waits for the gateway: `begin_send` up to the HTTP request, and
-- `finish_send` on the answer, with the operation as it stood in memory. `is_float` says which texts
-- `float` reads.
pub mod Delivery
pub mod Queue
use flownexus.Prelude.{
  ℕ, suc, ◌+◌, String, Bool, true, false, ◌&&◌, ◌||◌, not, Option, none, some, List, [], ◌∷◌, map,
  ◌==◌, nat_key, text_key, if◌then◌else◌, leb, ltb, is_some, nat_eq,
}
use flownexus.Prelude.Int.{ℤ, pos, int_key}
use flownexus.Table.{Table, Rows, select, first, find, get, put}
use flownexus.Models.Rows.{
  Status, sending, queued, confirmed, failed, DataType, none_type, Resource, ResourceType,
  EndpointOperation, FirmwareUpdate, Task, send_operation, result_default, result_update_failed,
  state_idle,
}
use flownexus.Models.Db.{Db}
use flownexus.Models.Exec.{
  Exec, Action, pure, gets, need, done, when, for_each, delay, ok, err, ◌>>=◌, ◌>>◌, does_not_exist,
}
use flownexus.Models.Device.{Value, get_value}
use flownexus.Models.Update.{refers_to, save_update}
use flownexus.Fota.{save_operation}
use flownexus.Ingest.Serializers.{ObjectData, create_composite}

abbrev pub max_attempts : ℕ
max_attempts = 3

-- An HTTP answer of the gateway: the status and the `code` of a JSON body.
pub record Response : Type 0 where
  pub status_code : ℕ
  pub code : Option String

abbrev pub is_text : Option String → Bool
is_text none = false
is_text (some t) = not (t == "")

-- Whether `_device_rejection` returns a true value: a CoAP code that is not empty.
unfoldable pub device_rejection : Response → Bool
device_rejection r = nat_eq r.status_code 502 && is_text r.code

-- The HTTP request that is sent: POST for an executable resource, PUT with a value for another.
pub data Request : Type 0 where
  post : String → ℤ → ℕ → ℤ → Request
  put_value : String → ℤ → ℕ → ℤ → Value → DataType → Request

abbrev pub is_none_type : DataType → Bool
is_none_type none_type = true
is_none_type _ = false

unfoldable pub request_for : EndpointOperation → Resource → ResourceType → Request
unfolding get_value
request_for o r rt =
    if is_none_type rt.data_type
    then post r.endpoint rt.object_id o.instance_id rt.resource_id
    else put_value r.endpoint rt.object_id o.instance_id rt.resource_id (get_value rt r)
        rt.data_type

-- The operation in memory after it has been marked as sent.
unfoldable pub mark_sending : ℕ → EndpointOperation → EndpointOperation
mark_sending now o = record o { last_attempt = some now; status = sending }

-- `send_operation` up to the request, for an operation that exists.
unfoldable pub start_send : ℕ → EndpointOperation → Exec (Option (Request × EndpointOperation))
unfolding request_for mark_sending
start_send k o = do
  found ← gets (λ db. get o.resource db.resources)
  r ← need does_not_exist found
  found_type ← gets (λ db. get r.resource_type db.resource_types)
  rt ← need does_not_exist found_type
  now ← gets (λ db. db.now)
  save_operation k (mark_sending now o)
  pure (some (request_for o r rt, mark_sending now o))

-- `none`: the operation does not exist, and the task ends.
unfoldable pub send_found :
    ℕ → Option EndpointOperation → Exec (Option (Request × EndpointOperation))
unfolding start_send
send_found k none = pure none
send_found k (some o) = start_send k o

unfoldable pub begin_send : ℕ → Exec (Option (Request × EndpointOperation))
unfolding send_found
begin_send k = do found ← gets (λ db. get k db.operations); send_found k found

-- The device, or the gateway, refuses the operation.
abbrev pub rejected : EndpointOperation → EndpointOperation
rejected o = record o { transmit_counter = o.transmit_counter + 1; status = failed }

-- The operation was not delivered: it is queued again until the attempts are used up.
abbrev pub undelivered : EndpointOperation → EndpointOperation
undelivered o = record o {
  transmit_counter = o.transmit_counter + 1;
  status = if leb max_attempts (o.transmit_counter + 1) then failed else queued;
}

-- The outcome of the request; `none` is a `RequestException`.
unfoldable pub after_response : Option Response → EndpointOperation → EndpointOperation
unfolding device_rejection
after_response none o = undelivered o
after_response (some r) o =
    if leb 200 r.status_code && ltb r.status_code 300
    then record o { status = confirmed }
    else if device_rejection r
    then rejected o
    else if nat_eq r.status_code 400
    then rejected o
    else undelivered o

abbrev pub is_failed : Status → Bool
is_failed failed = true
is_failed _ = false

-- An update that the operation belongs to.
abbrev pub belongs_to : ℕ → ℕ → FirmwareUpdate → Bool
belongs_to k _ u = refers_to u.send_uri_operation k || refers_to u.execute_operation k

abbrev pub fail_update : Option (ℕ × FirmwareUpdate) → Action
fail_update none = done
fail_update (some (j, u)) =
    when (u.result == result_default)
      (save_update j (record u { result = result_update_failed; state = state_idle }))

-- `_propagate_failure_to_firmware_update`
unfoldable pub propagate_failure : ℕ → Action
propagate_failure k = do
  found ← gets (λ db. first (belongs_to k) db.updates.rows)
  fail_update found

-- `send_operation` after the request; every column of the operation is written from memory.
unfoldable pub finish_send : ℕ → EndpointOperation → Option Response → Action
unfolding after_response propagate_failure
finish_send k o response =
    let o' = after_response response o in
    do save_operation k o'; when (is_failed o'.status) (propagate_failure k)

abbrev pub endpoint_of : EndpointOperation → Db → Option String
endpoint_of o db = elim (get o.resource db.resources) [ none ↦ none | some r ↦ some r.endpoint ]

abbrev pub is_for : Option String → String → Bool
is_for none ep = false
is_for (some name) ep = name == ep

abbrev pub is_queued : Status → Bool
is_queued queued = true
is_queued _ = false

-- `filter(resource__endpoint=endpoint, status=QUEUED)`
abbrev pub is_pending_for : Db → String → ℕ → EndpointOperation → Bool
is_pending_for db ep _ o = is_for (endpoint_of o db) ep && is_queued o.status

abbrev pub pending_operations : String → Db → Rows ℕ EndpointOperation
pending_operations ep db = select (is_pending_for db ep) db.operations.rows

-- `process_pending_operations`
unfoldable pub process_pending : String → Action
process_pending ep = do
  endpoint ← gets (λ db. find ep db.endpoints)
  pending ← gets (pending_operations ep)
  when (is_some endpoint) (for_each (λ (k, _). delay (send_operation k)) pending)

-- What `read_device_object` gets: no answer, another status than 200, content that the serializer
-- refuses, or valid content of object 3.
pub data DeviceAnswer : Type 0 where
  unreachable : DeviceAnswer
  refused : ℕ → DeviceAnswer
  invalid : DeviceAnswer
  content : ObjectData → DeviceAnswer

-- `read_device_object`
unfoldable pub read_device : (String → Bool) → String → DeviceAnswer → Action
unfolding create_composite
read_device is_float ep unreachable = done
read_device is_float ep (refused status) = done
read_device is_float ep invalid = done
read_device is_float ep (content obj) = create_composite is_float ep (obj ∷ [])
