-- ===== src/Fota/Reports.antt =====
-- `handle_fota` when a device reports its update state while one update is active.
use flownexus.Prelude.{ℕ, ◌≡◌, refl, String, true, false, none, some, [], ◌∷◌, ◌++◌, ◌==◌, nat_key}
use flownexus.Prelude.Int.{ℤ, pos, int_key, fits_column}
use flownexus.Text.Number.{int}
use flownexus.Table.{select, put, insert}
use flownexus.Models.Rows.{
  FirmwareUpdate, DataType, ResourceType, EndpointOperation, queued, integer, state_downloaded,
  process_pending_operations,
}
use flownexus.Models.Db.{Db}
use flownexus.Models.Exec.{ok}
use flownexus.Models.Device.{find_type, bare_resource, create_resource, create_operation}
use flownexus.Models.Update.{is_active, save_update}
use flownexus.Fota.{
  change_state, start_execute, check_column, dispatch, fail_duplicates, handle_active, handle_fota,
}

abbrev pub typed : ℤ → ℤ → String → DataType → ResourceType
typed obj res name t = record { object_id = obj; resource_id = res; name = name; data_type = t }

-- The update in another state.
abbrev pub moved : ℕ → ℤ → FirmwareUpdate → FirmwareUpdate
moved now state u = record u { state = state; timestamp_updated = now }

-- Any other state than "downloaded" is stored, and nothing else changes.
pub handle_fota_state :
    (ep name value : String) (z : ℤ) (k : ℕ) (u : FirmwareUpdate) (db : Db)
    → select (is_active ep) db.updates.rows ≡ (k, u) ∷ []
    → int value ≡ some z
    → fits_column z ≡ true
    → (z == state_downloaded) ≡ false
    → handle_fota ep (typed (pos 5) (pos 3) name integer) value db
      ≡ (ok tt, record db { updates = put k (moved db.now z u) db.updates })
unfolding handle_fota handle_active fail_duplicates dispatch change_state check_column save_update
handle_fota_state ep name value z k u db one reads fits other = simp (one, reads, fits, other) refl

-- The operation that executes the downloaded update.
abbrev pub execute_row : ℕ → ℕ → EndpointOperation
execute_row resource now = record {
  resource = resource;
  operation_type = "";
  instance_id = 0;
  status = queued;
  transmit_counter = 0;
  timestamp_created = now;
  last_attempt = none;
}

-- The database after a device has reported a complete download.
abbrev pub downloaded : String → ℕ → ℕ → FirmwareUpdate → Db → Db
downloaded ep exec_type k u db = record db {
  resources =
      insert (record (bare_resource ep exec_type) { timestamp_created = db.now }) db.resources;
  operations = insert (execute_row db.resources.next_id db.now) db.operations;
  tasks = db.tasks ++ process_pending_operations ep ∷ [];
  updates =
      put k
        (record (moved db.now state_downloaded u) {
          execute_operation = some db.operations.next_id;
        })
        db.updates;
}

pub handle_fota-downloaded :
    (ep name value : String) (k j : ℕ) (rt : ResourceType) (u : FirmwareUpdate) (db : Db)
    → select (is_active ep) db.updates.rows ≡ (k, u) ∷ []
    → int value ≡ some state_downloaded
    → find_type (pos 5) (pos 2) db ≡ some (j, rt)
    → handle_fota ep (typed (pos 5) (pos 3) name integer) value db ≡ (ok tt, downloaded ep j k u db)
unfolding handle_fota handle_active fail_duplicates dispatch change_state start_execute check_column
    save_update create_resource create_operation
handle_fota-downloaded ep name value k j rt u db one reads found = simp (one, reads, found) refl
