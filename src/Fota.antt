-- ===== src/Fota.antt =====
-- The firmware update (FOTA) state machine of server/django/sensordata/serializers/base.py:
-- `handle_fota` and the methods that it calls.
pub mod Abort
pub mod Active
pub mod Single
pub mod Reboot
pub mod Reports
use flownexus.Prelude.{
  ℕ, suc, String, Bool, true, false, ◌&&◌, ◌||◌, not, Option, none, some, List, [], ◌∷◌, map,
  length, ◌==◌, nat_key, if◌then◌else◌, ltb,
}
use flownexus.Prelude.Int.{ℤ, pos, int_key, fits_column}
use flownexus.Text.{codes, strip, canonical_char, same_codes}
use flownexus.Text.Number.{int}
use flownexus.Table.{Table, Rows, select, get, put}
use flownexus.Models.Rows.{
  Status, sending, queued, confirmed, failed, EndpointOperation, FirmwareUpdate, ResourceType,
  state_idle, state_downloaded, result_default, result_success, result_update_failed,
  process_pending_operations,
}
use flownexus.Models.Db.{Db}
use flownexus.Models.Exec.{
  Exec, Action, pure, raise, gets, need, modify, done, when, for_each, delay, ok, err, ◌>>=◌, ◌>>◌,
  validation_error, does_not_exist, multiple_objects, value_error, overflow_error,
}
use flownexus.Models.Device.{has_path, find_type, bare_resource, create_resource, create_operation}
use flownexus.Models.Update.{is_active, save_update}

-- `status in (QUEUED, SENDING)`
abbrev pub is_pending : Status → Bool
is_pending sending = true
is_pending queued = true
is_pending confirmed = false
is_pending failed = false

abbrev pub save_operation : ℕ → EndpointOperation → Action
save_operation k o = modify (λ db. record db { operations = put k o db.operations })

-- One half of `abort_pending_fota_comms`: the operation that a field of the update refers to.
unfoldable pub abort_operation : Option ℕ → Action
abort_operation none = done
abort_operation (some k) = do
  found ← gets (λ db. get k db.operations)
  o ← need does_not_exist found
  when (is_pending o.status) (save_operation k (record o { status = failed }))

unfoldable pub abort_pending_fota_comms : FirmwareUpdate → Action
unfolding abort_operation
abort_pending_fota_comms u = do
  abort_operation u.execute_operation
  abort_operation u.send_uri_operation

-- `_normalize_version`
unfoldable pub normalize_version : String → List ℕ
unfolding strip canonical_char
normalize_version version = map canonical_char (strip (codes version))

-- `order_by("-timestamp_created").first()`: the first of the latest.
abbrev pub latest_of : ℕ × FirmwareUpdate → Rows ℕ FirmwareUpdate → ℕ × FirmwareUpdate
latest_of best [] = best
latest_of best (r ∷ rest) =
    latest_of (if ltb best.1.timestamp_created r.1.timestamp_created then r else best) rest

-- One round of the loop over older duplicates.
unfoldable pub fail_stale : ℕ × FirmwareUpdate → Action
unfolding abort_pending_fota_comms
fail_stale (k, u) =
    let stale = record u { result = result_update_failed; state = state_idle } in
    do abort_pending_fota_comms stale; save_update k stale

unfoldable pub fail_duplicates : String → Rows ℕ FirmwareUpdate → Action
unfolding fail_stale
fail_duplicates ep [] = done
fail_duplicates ep (_ ∷ []) = done
fail_duplicates ep (r ∷ s ∷ rest) = do
  let (latest, _) = latest_of r (s ∷ rest)
  stale ← gets (λ db. select (λ k u. is_active ep k u && not (k == latest)) db.updates.rows)
  for_each fail_stale stale

-- `fw_query.get()`
abbrev pub the_only : {A : Type 0} → List A → Exec A
the_only [] = raise does_not_exist
the_only (r ∷ []) = pure r
the_only (r ∷ s ∷ rest) = raise multiple_objects

-- The device reported its version (3/0/3) while an update was under way.
unfoldable pub finish_reboot : String → ℕ → FirmwareUpdate → Action
unfolding normalize_version abort_pending_fota_comms
finish_reboot value k u = do
  found ← gets (λ db. get u.firmware db.firmwares)
  firmware ← need does_not_exist found
  let matches = same_codes (normalize_version firmware.version) (normalize_version value)
  let finished = record u {
    result = if matches then result_success else result_update_failed;
    state = state_idle;
  }
  abort_pending_fota_comms finished
  save_update k finished

-- `int(value)`
abbrev pub to_int : String → Exec ℤ
to_int value = need value_error (int value)

-- What `save` accepts for an integer column of the database.
unfoldable pub check_column : ℤ → Action
check_column z = when (not (fits_column z)) (raise overflow_error)

-- The download is complete (5/0/3): the Update resource is executed.
unfoldable pub start_execute : String → FirmwareUpdate → Exec FirmwareUpdate
unfolding find_type create_resource create_operation
start_execute ep u = do
  found ← gets (find_type (pos 5) (pos 2))
  (exec_type, _) ← need does_not_exist found
  resource ← create_resource none (bare_resource ep exec_type)
  operation ← create_operation resource
  delay (process_pending_operations ep)
  pure (record u { execute_operation = some operation })

-- The device reported its update state (5/0/3).
unfoldable pub change_state : String → String → ℕ → FirmwareUpdate → Action
unfolding start_execute check_column
change_state ep value k u = do
  state ← to_int value
  let moved = record u { state = state }
  moved ← if state == state_downloaded then start_execute ep moved else pure moved
  check_column state
  save_update k moved

-- The device reported its update result (5/0/5).
unfoldable pub change_result : String → ℕ → FirmwareUpdate → Action
unfolding abort_pending_fota_comms check_column
change_result value k u = do
  abort_pending_fota_comms u
  result ← to_int value
  check_column result
  save_update k (record u { result = result; state = state_idle })

abbrev pub is_version : ResourceType → Bool
is_version rt = rt.object_id == pos 3 && rt.resource_id == pos 3

-- The rest of `handle_fota`, on the one active update.
unfoldable pub dispatch : String → ResourceType → String → ℕ → FirmwareUpdate → Action
unfolding finish_reboot change_state change_result
dispatch ep rt value k u =
    if is_version rt
    then (if u.state == state_idle && u.result == result_default
        then done
        else finish_reboot value k u)
    else if rt.resource_id == pos 3
    then change_state ep value k u
    else if rt.resource_id == pos 5
    then change_result value k u
    else done

abbrev pub active_updates : String → Db → Rows ℕ FirmwareUpdate
active_updates ep db = select (is_active ep) db.updates.rows

unfoldable pub handle_active : String → ResourceType → String → Rows ℕ FirmwareUpdate → Action
unfolding fail_duplicates dispatch
handle_active ep rt value [] = when (not (is_version rt)) (raise validation_error)
handle_active ep rt value (r ∷ rest) = do
  fail_duplicates ep (r ∷ rest)
  active ← gets (active_updates ep)
  (k, u) ← the_only active
  dispatch ep rt value k u

unfoldable pub handle_fota : String → ResourceType → String → Action
unfolding handle_active
handle_fota ep rt value = do active ← gets (active_updates ep); handle_active ep rt value active
