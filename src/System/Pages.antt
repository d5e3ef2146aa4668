-- ===== src/System/Pages.antt =====
-- The two halves of a send, and the firmware page, keep what every single write keeps.
use flownexus.Prelude.{ℕ, String, true, Option, none, some}
use flownexus.Prelude.Int.{int_key}
use flownexus.Models.Rows.{User, File, Firmware, FirmwareUpdate, EndpointOperation}
use flownexus.Models.Db.{Db}
use flownexus.Models.Keeps.{Keeps, keeps_rules}
use flownexus.Ingest.Frame.{saved_operation-Keeps, saved_update-Keeps, task-Keeps}
use flownexus.Tasks.{
  Response, start_send, send_found, begin_send, fail_update, propagate_failure, finish_send,
}
use flownexus.Access.Middleware.{Context}
use flownexus.Frontend.Firmwares.{
  Post, upload_firmware, start_update_of, mark_deleted, delete_firmware, handle_post, firmware_page,
}
use flownexus.System.Calls.{Wider, new_firmware-Keeps, save_new_update-Keeps}

module _ {P : Db → Type 0} (wide : Wider P) where
  start_send-Keeps : (k : ℕ) (o : EndpointOperation) → Keeps P (start_send k o)
  unfolding start_send
  start_send-Keeps k o = search (keeps_rules, saved_operation-Keeps wide.ingest.writes) depth 14

  send_found-Keeps : (k : ℕ) (o : Option EndpointOperation) → Keeps P (send_found k o)
  unfolding send_found
  send_found-Keeps k none = search keeps_rules
  send_found-Keeps k (some o) = start_send-Keeps k o

  pub begin_send-Keeps : (k : ℕ) → Keeps P (begin_send k)
  unfolding begin_send
  begin_send-Keeps k = search (keeps_rules, send_found-Keeps)

  fail_update-Keeps : (found : Option (ℕ × FirmwareUpdate)) → Keeps P (fail_update found)
  fail_update-Keeps none = search keeps_rules
  fail_update-Keeps (some (j, u)) = search (keeps_rules, saved_update-Keeps wide.ingest.writes)

  propagate-Keeps : (k : ℕ) → Keeps P (propagate_failure k)
  unfolding propagate_failure
  propagate-Keeps k = search (keeps_rules, fail_update-Keeps)

  pub finish_send-Keeps :
      (k : ℕ) (o : EndpointOperation) (r : Option Response) → Keeps P (finish_send k o r)
  unfolding finish_send
  finish_send-Keeps k o r =
      search (keeps_rules, saved_operation-Keeps wide.ingest.writes, propagate-Keeps)

  upload-Keeps : (form : Option (String × File)) → Keeps P (upload_firmware form)
  unfolding upload_firmware
  upload-Keeps none = search keeps_rules
  upload-Keeps (some (v, file)) = search (keeps_rules, new_firmware-Keeps wide) depth 9

  module _ (u : ℕ) (user : User) (c : Context) where
    start_update-Keeps : (form : Option (String × ℕ)) → Keeps P (start_update_of u user c form)
    unfolding start_update_of
    start_update-Keeps none = search keeps_rules
    start_update-Keeps (some (ep, fw)) =
        search (keeps_rules, save_new_update-Keeps wide, task-Keeps wide.ingest.writes) depth 9

    mark_deleted-Keeps : (k : ℕ) (fw : Option Firmware) → Keeps P (mark_deleted u user c k fw)
    mark_deleted-Keeps k none = search keeps_rules
    mark_deleted-Keeps k (some fw) = wide.saved_firmware k (record fw { is_deleted = true })

    delete-Keeps : (k : Option ℕ) → Keeps P (delete_firmware u user c k)
    unfolding delete_firmware
    delete-Keeps none = search keeps_rules
    delete-Keeps (some k) = search (keeps_rules, mark_deleted-Keeps) depth 9

    handle_post-Keeps : (p : Post) → Keeps P (handle_post u user c p)
    unfolding handle_post
    handle_post-Keeps p =
        search (keeps_rules, upload-Keeps, start_update-Keeps, delete-Keeps) depth 14

    pub page-Keeps : (post : Option Post) → Keeps P (firmware_page u user c post)
    unfolding firmware_page
    page-Keeps none = search keeps_rules depth 9
    page-Keeps (some p) = search (keeps_rules, handle_post-Keeps) depth 9
