-- ===== src/Frontend/Firmwares.antt =====
-- The view `firmware_list` of server/django/frontend/views.py, with the forms that it reads. A file
-- that was uploaded is given with its URL; whether the storage still has a file is not read.
pub mod Isolation
use flownexus.Prelude.{
  ℕ, String, Bool, true, false, ◌&&◌, not, Option, none, some, List, ◌==◌, nat_key, text_key,
  if◌then◌else◌, is_some, sort_by, leb, ltb,
}
use flownexus.Table.{Rows, select, exists, find, get, put}
use flownexus.Models.Rows.{
  User, Permission, can_view_firmware, can_manage_firmware, can_perform_operations, File, Firmware,
  FirmwareUpdate, process_pending_operations,
}
use flownexus.Models.Db.{Db}
use flownexus.Models.Exec.{Exec, Action, pure, gets, modify, when, done, delay, ◌>>=◌, ◌>>◌}
use flownexus.Models.Update.{max_size, save_new_update}
use flownexus.Api.{save_firmware}
use flownexus.Access.Middleware.{Context}
use flownexus.Access.Permissions.{has_site_permission, site_filtered_endpoints}
use flownexus.Frontend.Page.{Page, forbidden, redirected, rendered}

-- A POST of the page: which keys it has, and the fields of the three forms as far as they parse.
pub record Post : Type 0 where
  pub upload_fw : Bool
  pub start_update : Bool
  pub delete_fw : Bool
  pub has_version : Bool
  pub has_endpoint : Bool
  pub upload : Option (String × File)
  pub update : Option (String × ℕ)
  pub firmware_id : Option ℕ

-- `FirmwareUploadForm.is_valid`: the version is new, and `Firmware.clean` accepts the file.
abbrev pub upload_valid : Db → String → File → Bool
upload_valid db version file =
    not (exists (λ _ fw. fw.version == version) db.firmwares.rows) && not (ltb max_size file.size)

unfoldable pub upload_firmware : Option (String × File) → Exec Page
unfolding save_firmware
upload_firmware none = pure rendered
upload_firmware (some (version, file)) = do
  valid ← gets (λ db. upload_valid db version file)
  if valid then (do save_firmware version (some file); pure redirected) else pure rendered

module _ (u : ℕ) (user : User) (c : Context) where
  -- `FirmwareUpdateForm.is_valid`, with the endpoints of the user's sites as choices. Every firmware
  -- is a choice: the list is narrowed to existing files after the form has been handled.
  abbrev pub update_valid : Db → String → ℕ → Bool
  update_valid db ep firmware =
      is_some (find ep (site_filtered_endpoints db u user c (some can_perform_operations)))
      && is_some (get firmware db.firmwares)

  unfoldable pub start_update_of : Option (String × ℕ) → Exec Page
  unfolding save_new_update
  start_update_of none = pure rendered
  start_update_of (some (ep, firmware)) = do
    valid ← gets (λ db. update_valid db ep firmware)
    if valid
        then (do
          save_new_update ep firmware
          delay (process_pending_operations ep)
          pure redirected)
        else pure rendered

  abbrev pub mark_deleted : ℕ → Option Firmware → Action
  mark_deleted k none = done
  mark_deleted k (some fw) =
      modify (λ db. record db { firmwares = put k (record fw { is_deleted = true }) db.firmwares })

  -- The soft delete; a key that is missing or unknown is passed over.
  unfoldable pub delete_firmware : Option ℕ → Exec Page
  delete_firmware none = pure redirected
  delete_firmware (some k) = do
    found ← gets (λ db. get k db.firmwares)
    mark_deleted k found
    pure redirected

  abbrev pub guarded : Permission → Exec Page → Exec Page
  guarded p m = do
    may ← gets (λ db. has_site_permission db u user c p)
    if may then m else pure forbidden

  unfoldable pub handle_post : Post → Exec Page
  unfolding upload_firmware start_update_of delete_firmware
  handle_post p =
      if p.upload_fw
      then guarded can_manage_firmware (upload_firmware p.upload)
      else if p.start_update
      then guarded can_perform_operations (start_update_of p.update)
      else if p.delete_fw
      then guarded can_manage_firmware (delete_firmware p.firmware_id)
      else if p.has_version
      then guarded can_manage_firmware (upload_firmware p.upload)
      else if p.has_endpoint
      then guarded can_perform_operations (start_update_of p.update)
      else pure rendered

  -- `firmware_list`; `none` is a GET.
  unfoldable pub firmware_page : Option Post → Exec Page
  unfolding handle_post
  firmware_page none = guarded can_view_firmware (pure rendered)
  firmware_page (some p) = guarded can_view_firmware (handle_post p)

  abbrev newest_first : ℕ × Firmware → ℕ × Firmware → Bool
  newest_first (_, a) (_, b) = leb b.created_at a.created_at

  -- The firmwares that the page lists.
  unfoldable pub listed_firmwares : Db → Rows ℕ Firmware
  listed_firmwares db = sort_by newest_first (select (λ _ fw. not fw.is_deleted) db.firmwares.rows)

  -- The updates that the page lists, before they are put in order.
  unfoldable pub listed_updates : Db → Rows ℕ FirmwareUpdate
  listed_updates db =
      select
        (λ _ up.
          is_some (find up.endpoint (site_filtered_endpoints db u user c (some can_view_firmware))))
        db.updates.rows
