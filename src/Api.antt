-- ===== src/Api.antt =====
-- The REST views of server/django/sensordata/views.py. A request's body is `none` where the
-- serializer refuses it; an exception that a view does not catch is the `err` of the run, where
-- `http_404` is the answer 404 and any other the answer 500.
pub mod Operations
pub mod Catch
pub mod Frame
use flownexus.Prelude.{
  ℕ, String, Bool, true, false, ◌&&◌, Option, none, some, List, [], ◌∷◌, map, ◌==◌, text_key,
  nat_key, if◌then◌else◌,
}
use flownexus.Prelude.Int.{ℤ}
use flownexus.Table.{Rows, select, first, find, get, insert}
use flownexus.Models.Rows.{
  Endpoint, ResourceType, Resource, Status, EndpointOperation, File, Firmware, FirmwareUpdate,
}
use flownexus.Models.Db.{Db}
use flownexus.Models.Exec.{
  Exec, Action, Result, ok, err, Error, pure, raise, gets, need, ◌>>=◌, ◌>>◌, validation_error,
  http_404, integrity_error,
}
use flownexus.Models.Device.{Value, get_value}
use flownexus.Models.Update.{save_new_update}
use flownexus.Tasks.{endpoint_of, is_for}
use flownexus.Ingest.Resource.{ResourceData}
use flownexus.Ingest.Serializers.{
  ObjectData, Nodes, create_single, create_composite, create_timestamped,
}
use flownexus.Ingest.Registration.{RegistrationEvent, create_registration}

-- The answers 201, 200 and 400.
pub data Reply (A : Type 0) : Type 0 where
  created : A → Reply A
  shown : A → Reply A
  bad_request : Reply A

-- `except ValidationError: return Response(…, status=400)`
abbrev pub refused_as : {A : Type 0} → Error → Db → Result (Reply A) × Db
refused_as validation_error db = (ok bad_request, db)
refused_as e db = (err e, db)

abbrev pub caught : {A : Type 0} → Result (Reply A) × Db → Result (Reply A) × Db
caught (ok a, db) = (ok a, db)
caught (err e, db) = refused_as e db

abbrev pub catch_validation : {A : Type 0} → Exec (Reply A) → Exec (Reply A)
catch_validation m db = caught (m db)

-- `PostRegistrationEventView.post`; it catches nothing.
abbrev pub EventData : Type 0
EventData = String × RegistrationEvent × ℤ

unfoldable pub post_registration : Option EventData → Exec (Reply EventData)
unfolding create_registration
post_registration none = pure bad_request
post_registration (some (ep, event, time)) = do
  create_registration ep event time
  pure (created (ep, event, time))

module _ (is_float : String → Bool) where
  -- `PostSingleResourceView.post`
  unfoldable pub post_single :
      Option (String × ℤ × ResourceData) → Exec (Reply (String × ℤ × ResourceData))
  unfolding create_single
  post_single none = pure bad_request
  post_single (some (ep, obj_id, val)) =
      catch_validation do create_single is_float ep obj_id val; pure (created (ep, obj_id, val))

  -- `PostCompositeResourceView.post`
  unfoldable pub post_composite :
      Option (String × List ObjectData) → Exec (Reply (String × List ObjectData))
  unfolding create_composite
  post_composite none = pure bad_request
  post_composite (some (ep, val)) =
      catch_validation do create_composite is_float ep val; pure (created (ep, val))

  -- `PostTimestampedResourceView.post`
  unfoldable pub post_timestamped :
      (String → Option ℕ)
      → Option (String × List (List Nodes))
      → Exec (Reply (String × List (List Nodes)))
  unfolding create_timestamped
  post_timestamped parse_time none = pure bad_request
  post_timestamped parse_time (some (ep, val)) =
      catch_validation do create_timestamped is_float parse_time ep val; pure (created (ep, val))

-- `get_object_or_404(Endpoint, endpoint=…)`
abbrev pub the_endpoint : String → Exec Endpoint
the_endpoint ep = do found ← gets (λ db. find ep db.endpoints); need http_404 found

-- `EndpointSerializer`
abbrev pub endpoint_data : String × Endpoint → String × Bool
endpoint_data (ep, e) = (ep, e.registered)

-- `EndpointListView.get`
unfoldable pub list_endpoints : Exec (Reply (List (String × Bool)))
list_endpoints = do rows ← gets (λ db. db.endpoints); pure (shown (map endpoint_data rows))

-- `EndpointDetailView.get`
unfoldable pub show_endpoint : String → Exec (Reply (String × Bool))
show_endpoint ep = do e ← the_endpoint ep; pure (shown (ep, e.registered))

-- A resource in an answer: its key, its type, its value and its time.
pub record ResourceItem : Type 0 where
  pub resource_id : ℕ
  pub resource_type : Option ResourceType
  pub value : Option Value
  pub timestamp_created : ℕ

unfoldable pub resource_item : Db → ℕ × Resource → ResourceItem
unfolding get_value
resource_item db (k, r) =
    let rt = get r.resource_type db.resource_types in
    record {
      resource_id = k;
      resource_type = rt;
      value = elim rt [ none ↦ none | some t ↦ some (get_value t r) ];
      timestamp_created = r.timestamp_created;
    }

abbrev pub is_resource_of : String → ℕ → Resource → Bool
is_resource_of ep _ r = r.endpoint == ep

-- `EndpointResourceListView.get`
unfoldable pub list_resources : String → Exec (Reply (List ResourceItem))
unfolding resource_item
list_resources ep = do
  the_endpoint ep
  items ← gets (λ db. map (resource_item db) (select (is_resource_of ep) db.resources.rows))
  pure (shown items)

abbrev pub is_resource : String → ℕ → ℕ → Resource → Bool
is_resource ep id k r = r.endpoint == ep && k == id

-- `EndpointResourceDetailView.get`
unfoldable pub show_resource : String → ℕ → Exec (Reply ResourceItem)
unfolding resource_item
show_resource ep id = do
  the_endpoint ep
  found ← gets (λ db. first (is_resource ep id) db.resources.rows)
  row ← need http_404 found
  item ← gets (λ db. resource_item db row)
  pure (shown item)

-- `EndpointFirmwareView.get`
unfoldable pub list_updates : String → Exec (Reply (Rows ℕ FirmwareUpdate))
list_updates ep = do
  the_endpoint ep
  rows ← gets (λ db. select (λ _ u. u.endpoint == ep) db.updates.rows)
  pure (shown rows)

-- `FirmwareSerializer.save` of a new firmware; a version stands in the table once.
unfoldable pub save_firmware : String → Option File → Exec ℕ
save_firmware version binary db = pure db.firmwares.next_id (record db {
  firmwares =
      insert
        (record { version = version; created_at = db.now; binary = binary; is_deleted = false })
        db.firmwares;
})

-- `EndpointFirmwareView.post`
unfoldable pub post_firmware : String → Option (String × File) → Exec (Reply ℕ)
unfolding save_firmware save_new_update
post_firmware ep none = do the_endpoint ep; pure bad_request
post_firmware ep (some (version, binary)) = do
  the_endpoint ep
  firmware ← save_firmware version (some binary)
  update ← save_new_update ep firmware
  pure (created update)

-- `EndpointOperationView.get`
unfoldable pub list_operations : String → Exec (Reply (Rows ℕ EndpointOperation))
list_operations ep = do
  the_endpoint ep
  rows ← gets (λ db. select (λ _ o. is_for (endpoint_of o db) ep) db.operations.rows)
  pure (shown rows)

-- The validated data of `EndpointOperationSerializer`: the resource's row is read from the table.
pub record OperationData : Type 0 where
  pub resource : ℕ
  pub instance_id : ℕ
  pub operation_type : String
  pub status : Status
  pub last_attempt : Option ℕ

abbrev pub operation_row : OperationData → ℕ → EndpointOperation
operation_row d now = record {
  resource = d.resource;
  operation_type = d.operation_type;
  instance_id = d.instance_id;
  status = d.status;
  transmit_counter = 0;
  timestamp_created = now;
  last_attempt = d.last_attempt;
}

unfoldable pub insert_operation : OperationData → Exec ℕ
insert_operation d db =
    pure db.operations.next_id
      (record db { operations = insert (operation_row d db.now) db.operations })

unfoldable pub store_if_own : String → OperationData → Option Resource → Exec (Reply ℕ)
unfolding insert_operation
store_if_own ep d none = pure bad_request
store_if_own ep d (some r) =
    if r.endpoint == ep then (do k ← insert_operation d; pure (created k)) else pure bad_request

-- `EndpointOperationView.post`; a resource that does not exist is refused by the serializer.
unfoldable pub post_operation : String → Option OperationData → Exec (Reply ℕ)
unfolding store_if_own
post_operation ep none = do the_endpoint ep; pure bad_request
post_operation ep (some d) = do
  the_endpoint ep
  found ← gets (λ db. get d.resource db.resources)
  store_if_own ep d found
