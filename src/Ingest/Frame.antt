-- ===== src/Ingest/Frame.antt =====
-- What every write of the ingest keeps, `handle_fota` keeps.
use flownexus.Prelude.{ℕ, String, Option, none, some, List, [], ◌∷◌}
use flownexus.Prelude.Int.{ℤ}
use flownexus.Table.{Rows}
use flownexus.Models.Rows.{Resource, ResourceType, EndpointOperation, FirmwareUpdate, Task}
use flownexus.Models.Db.{Db}
use flownexus.Models.Keeps.{Keeps, keeps_rules, Keeps-pure, Keeps-bind, Keeps-gets}
use flownexus.Ingest.Closed.{Writes}
use flownexus.Models.Exec.{delay}
use flownexus.Models.Device.{create_resource, create_operation}
use flownexus.Models.Update.{save_update}
use flownexus.Fota.{
  save_operation, abort_operation, abort_pending_fota_comms, fail_stale, fail_duplicates, the_only,
  finish_reboot, check_column, start_execute, change_state, change_result, dispatch, handle_active,
  handle_fota,
}

module _ {P : Db → Type 0} (w : Writes P) where
  pub the_only-Keeps : {A : Type 0} (xs : List A) → Keeps P (the_only xs)
  the_only-Keeps [] = search keeps_rules
  the_only-Keeps (x ∷ []) = search keeps_rules
  the_only-Keeps (x ∷ y ∷ xs) = search keeps_rules

  pub resource-Keeps : (ts : Option ℕ) (r : Resource) → Keeps P (create_resource ts r)
  resource-Keeps = w.resource

  pub operation-Keeps : (r : ℕ) → Keeps P (create_operation r)
  operation-Keeps = w.operation

  pub saved_operation-Keeps : (k : ℕ) (o : EndpointOperation) → Keeps P (save_operation k o)
  saved_operation-Keeps = w.saved_operation

  pub saved_update-Keeps : (k : ℕ) (u : FirmwareUpdate) → Keeps P (save_update k u)
  saved_update-Keeps = w.saved_update

  pub task-Keeps : (t : Task) → Keeps P (delay t)
  task-Keeps = w.task

  pub ruleset writes = (
    keeps_rules, resource-Keeps, operation-Keeps, saved_operation-Keeps, saved_update-Keeps,
    task-Keeps, the_only-Keeps,
  )

  abort_operation-Keeps : (o : Option ℕ) → Keeps P (abort_operation o)
  unfolding abort_operation
  abort_operation-Keeps none = search writes
  abort_operation-Keeps (some k) = search writes depth 9

  abort-Keeps : (u : FirmwareUpdate) → Keeps P (abort_pending_fota_comms u)
  unfolding abort_pending_fota_comms
  abort-Keeps u = search (writes, abort_operation-Keeps)

  fail_stale-Keeps : (r : ℕ × FirmwareUpdate) → Keeps P (fail_stale r)
  unfolding fail_stale
  fail_stale-Keeps r = search (writes, abort-Keeps)

  fail_duplicates-Keeps :
      (ep : String) (rows : Rows ℕ FirmwareUpdate) → Keeps P (fail_duplicates ep rows)
  unfolding fail_duplicates
  fail_duplicates-Keeps ep [] = search writes
  fail_duplicates-Keeps ep (r ∷ []) = search writes
  fail_duplicates-Keeps ep (r ∷ s ∷ rows) = search (writes, fail_stale-Keeps) depth 9

  pub check_column-Keeps : (z : ℤ) → Keeps P (check_column z)
  unfolding check_column
  check_column-Keeps z = search writes

  start_execute-Keeps : (ep : String) (u : FirmwareUpdate) → Keeps P (start_execute ep u)
  unfolding start_execute
  start_execute-Keeps ep u = search writes depth 12

  finish_reboot-Keeps : (v : String) (k : ℕ) (u : FirmwareUpdate) → Keeps P (finish_reboot v k u)
  unfolding finish_reboot
  finish_reboot-Keeps v k u = search (writes, abort-Keeps) depth 9

  change_state-Keeps :
      (ep v : String) (k : ℕ) (u : FirmwareUpdate) → Keeps P (change_state ep v k u)
  unfolding change_state
  change_state-Keeps ep v k u = search (writes, start_execute-Keeps, check_column-Keeps) depth 9

  change_result-Keeps : (v : String) (k : ℕ) (u : FirmwareUpdate) → Keeps P (change_result v k u)
  unfolding change_result
  change_result-Keeps v k u = search (writes, abort-Keeps, check_column-Keeps) depth 9

  dispatch-Keeps :
      (ep : String) (rt : ResourceType) (v : String) (k : ℕ) (u : FirmwareUpdate)
      → Keeps P (dispatch ep rt v k u)
  unfolding dispatch
  dispatch-Keeps ep rt v k u =
      search (writes, finish_reboot-Keeps, change_state-Keeps, change_result-Keeps) depth 9

  handle_active-Keeps :
      (ep : String) (rt : ResourceType) (v : String) (rows : Rows ℕ FirmwareUpdate)
      → Keeps P (handle_active ep rt v rows)
  unfolding handle_active
  handle_active-Keeps ep rt v [] = search writes
  handle_active-Keeps ep rt v (r ∷ rows) =
      search (writes, fail_duplicates-Keeps, dispatch-Keeps) depth 9

  pub handle_fota-Keeps :
      (ep : String) (rt : ResourceType) (v : String) → Keeps P (handle_fota ep rt v)
  unfolding handle_fota
  handle_fota-Keeps ep rt v = search (writes, handle_active-Keeps)
