-- ===== src/Tests/Admin.antt =====
-- Forms of the admin site at a concrete database.
use flownexus.Prelude.{◌≡◌, refl, true, some, [], ◌∷◌}
use flownexus.Table.{get, insert}
use flownexus.Models.Rows.{user, Permissions, queued, process_pending_operations}
use flownexus.Models.Exec.{ok}
use flownexus.Admin.{
  add_operation, change_update, member_count, endpoint_count, add_membership_form,
}
use flownexus.Tests.Data.{deployment, viewer, operation, update_of}
use flownexus.Prelude.Int.{pos}

abbrev everything : Permissions
everything = record {
  view_overview = true;
  view_firmware = true;
  view_data_analysis = true;
  manage_firmware = true;
  perform_operations = true;
  manage_devices = true;
}

-- What was chosen in the form is lost: the membership has what its role has.
choices_lost :
    get 3 (add_membership_form 7 2 user everything deployment).1.memberships
    ≡ some (record { member = 7; site = 2; role = user; permissions = viewer; joined_at = 30 })
unfolding add_membership_form
choices_lost = refl

-- A new operation puts a task for its endpoint on the queue.
operation_triggers : add_operation 1 0 deployment ≡ (
  ok tt,
  record deployment {
    operations =
        insert (record (operation 1 queued 0) { timestamp_created = 30 }) deployment.operations;
    tasks = process_pending_operations "urn:imei:1" ∷ [];
  },
)
unfolding add_operation
operation_triggers = refl

-- An update can be moved to another device; its operations stay with the old one.
update_moves :
    get 1 (change_update 1 "urn:imei:2" 1 deployment).1.updates
    ≡ some
        (record (update_of 10 (pos 1) (some 1)) { endpoint = "urn:imei:2"; timestamp_updated = 30 })
unfolding change_update
update_moves = refl

counts : (member_count deployment 1 ≡ 1) × (endpoint_count deployment 2 ≡ 1)
unfolding member_count endpoint_count
counts = (refl, refl)
