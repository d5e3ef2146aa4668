-- ===== src/Admin.antt =====
-- The admin site, server/django/sensordata/admin.py: what its forms save beyond the fields that they
-- show, and the columns that it computes. The forms have been validated; what is read-only in a form is
-- not an argument here.
use flownexus.Prelude.{ℕ, String, Bool, false, Option, none, some, ◌==◌, nat_key, text_key}
use flownexus.Prelude.Int.{int_key}
use flownexus.Table.{count, get}
use flownexus.Models.Rows.{
  Role, Permissions, Resource, EndpointOperation, queued, process_pending_operations,
}
use flownexus.Models.Db.{Db}
use flownexus.Models.Exec.{Action, gets, need, delay, ◌>>=◌, ◌>>◌, does_not_exist}
use flownexus.Models.Membership.{save_new_membership}
use flownexus.Models.Update.{save_new_update, save_update}
use flownexus.Fota.{save_operation}
use flownexus.Api.{OperationData, insert_operation}

-- `process_pending_operations.delay(obj.resource.endpoint.endpoint)`
abbrev pub trigger : Option Resource → Action
trigger none db = need does_not_exist none db
trigger (some r) db = delay (process_pending_operations r.endpoint) db

abbrev pub trigger_for : ℕ → Action
trigger_for resource = do found ← gets (λ db. get resource db.resources); trigger found

abbrev pub new_operation : ℕ → ℕ → OperationData
new_operation resource instance_id = record {
  resource = resource;
  instance_id = instance_id;
  operation_type = "";
  status = queued;
  last_attempt = none;
}

-- `EndpointOperationAdmin.save_model` of a new operation.
unfoldable pub add_operation : ℕ → ℕ → Action
unfolding insert_operation
add_operation resource instance_id = do
  insert_operation (new_operation resource instance_id)
  trigger_for resource

abbrev pub touched : ℕ → ℕ → EndpointOperation → EndpointOperation
touched instance_id now o = record o { instance_id = instance_id; timestamp_created = now }

-- `EndpointOperationAdmin.save_model` of an operation that stands under `k`: its resource is read-only.
unfoldable pub change_operation : ℕ → ℕ → Action
change_operation k instance_id = do
  found ← gets (λ db. get k db.operations)
  o ← need does_not_exist found
  now ← gets (λ db. db.now)
  save_operation k (touched instance_id now o)
  trigger_for o.resource

-- `FirmwareUpdateAdmin.save_model` of a new update.
unfoldable pub add_update : String → ℕ → Action
unfolding save_new_update
add_update ep firmware = do save_new_update ep firmware; delay (process_pending_operations ep)

-- `FirmwareUpdateAdmin.save_model` of an update that stands under `k`.
unfoldable pub change_update : ℕ → String → ℕ → Action
unfolding save_update
change_update k ep firmware = do
  found ← gets (λ db. get k db.updates)
  u ← need does_not_exist found
  save_update k (record u { endpoint = ep; firmware = firmware })
  delay (process_pending_operations ep)

-- `member_count` and `endpoint_count`
unfoldable pub member_count : Db → ℕ → ℕ
member_count db site = count (λ _ m. m.site == site) db.memberships.rows

abbrev pub is_at_site : Option ℕ → ℕ → Bool
is_at_site none site = false
is_at_site (some k) site = k == site

unfoldable pub endpoint_count : Db → ℕ → ℕ
endpoint_count db site = count (λ _ e. is_at_site e.site site) db.endpoints

-- A membership that is added in a form: the form makes the instance first and sets its fields then, so
-- that no permission counts as explicit.
unfoldable pub add_membership_form : ℕ → ℕ → Role → Permissions → Action
unfolding save_new_membership
add_membership_form user site role permissions =
    save_new_membership (λ _. false)
      (record { member = user; site = site; role = role; permissions = permissions; joined_at = 0 })
