-- ===== src/System/Calls.antt =====
-- A predicate that every single write keeps is kept by every call, except those of the permissions page.
use flownexus.Prelude.{ℕ, String, Bool, Option, none, some, [], ◌∷◌}
use flownexus.Prelude.Int.{ℤ, int_key}
use flownexus.Table.{put}
use flownexus.Models.Rows.{
  File, Firmware, FirmwareUpdate, Resource, EndpointOperation, Task, process_pending_operations,
}
use flownexus.Models.Db.{Db}
use flownexus.Models.Exec.{Exec, Result, ok, err, roll_back, atomic, modify, delay}
use flownexus.Models.Keeps.{Keeps, keeps_rules}
use flownexus.Models.Update.{insert_update, save_update, write_new_update, save_new_update}
use flownexus.Ingest.Closed.{Closed}
use flownexus.Ingest.Frame.{
  resource-Keeps, operation-Keeps, saved_operation-Keeps, saved_update-Keeps, task-Keeps,
}
use flownexus.Fota.{save_operation}
use flownexus.Admin.{trigger, add_operation, change_operation, add_update, change_update}
use flownexus.Ingest.Stores.{endpoint-Keeps, create_composite-Keeps}
use flownexus.Ingest.Registration.{
  RegistrationEvent, set_registered, apply_event, store_event, create_registration,
}
use flownexus.Tasks.{
  DeviceAnswer, unreachable, refused, invalid, content, process_pending, read_device,
}
use flownexus.Api.{
  EventData, OperationData, post_registration, save_firmware, post_firmware, insert_operation,
  store_if_own, post_operation,
}

-- The writes that the ingest does not make.
pub record Wider (P : Db → Type 0) : Type 0 where
  pub ingest : Closed P
  pub registered : (ep : String) (flag : Bool) → Keeps P (set_registered ep flag)
  pub new_update : (ep : String) (fw : ℕ) (uri : Option ℕ) → Keeps P (insert_update ep fw uri)
  pub new_firmware : (version : String) (file : Option File) → Keeps P (save_firmware version file)
  pub new_operation : (d : OperationData) → Keeps P (insert_operation d)
  pub saved_firmware :
      (k : ℕ) (fw : Firmware)
      → Keeps P (modify (λ db. record db { firmwares = put k fw db.firmwares }))

roll_back-Keeps :
    {A : Type 0} (P : Db → Type 0) (before : Db) (x : Result A × Db)
    → P before
    → P x.1
    → P (roll_back before x).1
roll_back-Keeps P before (ok a, db) h k = k
roll_back-Keeps P before (err e, db) h k = h

pub Keeps-atomic : {A : Type 0} {P : Db → Type 0} (m : Exec A) → Keeps P m → Keeps P (atomic m)
Keeps-atomic {A} {P} m k = record { at = λ db h. roll_back-Keeps P db (m db) h (k.at db h) }

module _ {P : Db → Type 0} (wide : Wider P) where
  registered-Keeps : (ep : String) (flag : Bool) → Keeps P (set_registered ep flag)
  registered-Keeps = wide.registered

  new_update-Keeps : (ep : String) (fw : ℕ) (uri : Option ℕ) → Keeps P (insert_update ep fw uri)
  new_update-Keeps = wide.new_update

  pub new_firmware-Keeps : (v : String) (file : Option File) → Keeps P (save_firmware v file)
  new_firmware-Keeps = wide.new_firmware

  new_operation-Keeps : (d : OperationData) → Keeps P (insert_operation d)
  new_operation-Keeps = wide.new_operation

  ruleset wider =
      (keeps_rules, registered-Keeps, new_update-Keeps, new_firmware-Keeps, new_operation-Keeps)

  apply_event-Keeps : (ep : String) (event : RegistrationEvent) → Keeps P (apply_event ep event)
  unfolding apply_event
  apply_event-Keeps ep event = search (wider, task-Keeps wide.ingest.writes) depth 9

  store_event-Keeps :
      (ep : String) (event : RegistrationEvent) (t : ℤ) (rt : ℕ)
      → Keeps P (store_event ep event t rt)
  unfolding store_event
  store_event-Keeps ep event t rt =
      search (wider, resource-Keeps wide.ingest.writes, apply_event-Keeps) depth 9

  pub registration-Keeps : (body : Option EventData) → Keeps P (post_registration body)
  unfolding post_registration create_registration
  registration-Keeps none = search wider
  registration-Keeps (some (ep, event, t)) =
      search (wider, endpoint-Keeps wide.ingest, store_event-Keeps) depth 12

  write_new_update-Keeps : (ep : String) (fw : ℕ) → Keeps P (write_new_update ep fw)
  unfolding write_new_update
  write_new_update-Keeps ep fw =
      search (wider, resource-Keeps wide.ingest.writes, operation-Keeps wide.ingest.writes) depth 14

  pub save_new_update-Keeps : (ep : String) (fw : ℕ) → Keeps P (save_new_update ep fw)
  unfolding save_new_update
  save_new_update-Keeps ep fw = Keeps-atomic (write_new_update ep fw) (write_new_update-Keeps ep fw)

  pub firmware-Keeps :
      (ep : String) (body : Option (String × File)) → Keeps P (post_firmware ep body)
  unfolding post_firmware
  firmware-Keeps ep none = search wider depth 9
  firmware-Keeps ep (some (v, file)) = search (wider, save_new_update-Keeps) depth 12

  store_if_own-Keeps :
      (ep : String) (d : OperationData) (r : Option _) → Keeps P (store_if_own ep d r)
  unfolding store_if_own
  store_if_own-Keeps ep d none = search wider
  store_if_own-Keeps ep d (some r) = search wider depth 9

  pub operation_post-Keeps :
      (ep : String) (body : Option OperationData) → Keeps P (post_operation ep body)
  unfolding post_operation
  operation_post-Keeps ep none = search wider depth 9
  operation_post-Keeps ep (some d) = search (wider, store_if_own-Keeps) depth 9

  pub pending-Keeps : (ep : String) → Keeps P (process_pending ep)
  unfolding process_pending
  pending-Keeps ep = search (wider, task-Keeps wide.ingest.writes) depth 9

  pub device-Keeps :
      (is_float : String → Bool) (ep : String) (a : DeviceAnswer)
      → Keeps P (read_device is_float ep a)
  unfolding read_device
  device-Keeps is_float ep unreachable = search wider
  device-Keeps is_float ep (refused n) = search wider
  device-Keeps is_float ep invalid = search wider
  device-Keeps is_float ep (content obj) = create_composite-Keeps wide.ingest is_float ep (obj ∷ [])

  trigger-Keeps : (r : Option Resource) → Keeps P (trigger r)
  trigger-Keeps none = record { at = λ db h. h }
  trigger-Keeps (some r) = record {
    at = λ db h. (task-Keeps wide.ingest.writes (process_pending_operations r.endpoint)).at db h;
  }

  saved-Keeps : (k : ℕ) (o : EndpointOperation) → Keeps P (save_operation k o)
  saved-Keeps = saved_operation-Keeps wide.ingest.writes

  updated-Keeps : (k : ℕ) (u : FirmwareUpdate) → Keeps P (save_update k u)
  updated-Keeps = saved_update-Keeps wide.ingest.writes

  queued-Keeps : (t : Task) → Keeps P (delay t)
  queued-Keeps = task-Keeps wide.ingest.writes

  ruleset forms =
      (wider, queued-Keeps, saved-Keeps, updated-Keeps, save_new_update-Keeps, trigger-Keeps)

  pub add_operation-Keeps :
      (resource instance_id : ℕ) → Keeps P (add_operation resource instance_id)
  unfolding add_operation
  add_operation-Keeps resource instance_id = search forms depth 12

  pub change_operation-Keeps : (k instance_id : ℕ) → Keeps P (change_operation k instance_id)
  unfolding change_operation
  change_operation-Keeps k instance_id = search forms depth 14

  pub add_update-Keeps : (ep : String) (firmware : ℕ) → Keeps P (add_update ep firmware)
  unfolding add_update
  add_update-Keeps ep firmware = search forms depth 9

  pub change_update-Keeps : (k : ℕ) (ep : String) (fw : ℕ) → Keeps P (change_update k ep fw)
  unfolding change_update
  change_update-Keeps k ep fw = search forms depth 12
