-- ===== src/Fota/Reboot.antt =====
-- `handle_fota` when a device reports its firmware version after the update was executed.
use flownexus.Prelude.{
  ℕ, ◌≡◌, refl, String, Bool, true, false, ◌||◌, Option, none, some, [], ◌∷◌, arith, ◌==◌, nat_key,
  nat_eq_iff, if◌then◌else◌, Bool-cases, inl, inr,
}
use flownexus.Prelude.Int.{int_key}
use flownexus.Text.{same_codes}
use flownexus.Table.{select, get, put}
use flownexus.Table.Laws.{IsValid, get-put}
use flownexus.Table.Search.{Elem-select, get-Elem}
use flownexus.Models.Rows.{
  Firmware, FirmwareUpdate, ResourceType, EndpointOperation, state_idle, result_success,
  result_update_failed,
}
use flownexus.Models.Db.{Db}
use flownexus.Models.Exec.{ok}
use flownexus.Models.Update.{is_active, save_update, refers_to}
use flownexus.Fota.{
  is_pending, normalize_version, finish_reboot, dispatch, is_version, fail_duplicates,
  handle_active, handle_fota,
}
use flownexus.Fota.Abort.{
  HasOperations, aborted_both, abort_pending_fota_comms-eq, get-aborted, settled, aborted,
}

-- The device runs the firmware of the update: the versions agree up to case, surrounding blanks and
-- the choice between `_` and `-`.
abbrev pub runs : Firmware → String → Bool
runs fw value = same_codes (normalize_version fw.version) (normalize_version value)

-- The update when the device has come back with this version.
abbrev pub finished : Firmware → String → FirmwareUpdate → FirmwareUpdate
finished fw value u = record u {
  result = if runs fw value then result_success else result_update_failed;
  state = state_idle;
}

abbrev pub rebooted : Firmware → String → ℕ → FirmwareUpdate → Db → Db
rebooted fw value k u db = record db {
  operations = aborted_both u db.operations;
  updates = put k (record (finished fw value u) { timestamp_updated = db.now }) db.updates;
}

finish_reboot-eq :
    (value : String) (k : ℕ) (u : FirmwareUpdate) (fw : Firmware) (db : Db)
    → get u.firmware db.firmwares ≡ some fw
    → HasOperations u db.operations
    → finish_reboot value k u db ≡ (ok tt, rebooted fw value k u db)
unfolding finish_reboot save_update
finish_reboot-eq value k u fw db here ops =
    let quiet = abort_pending_fota_comms-eq (finished fw value u) db ops in simp (here, quiet) refl

-- The operation is not sent any more.
abbrev pub NotPending : Option EndpointOperation → Type 0
NotPending none = Unit
NotPending (some o) = is_pending o.status ≡ false

settled-NotPending : (b : Bool) (o : Option EndpointOperation) → b ≡ true → NotPending (settled b o)
settled-NotPending b none h = tt
settled-NotPending b (some o) h = elim (Bool-cases (is_pending o.status)) [
  | inl p ↦ simp (h, p) refl
  | inr p ↦ simp (h, p) refl
]

NotPending-settled :
    (b : Bool) (o : Option EndpointOperation) → NotPending o → NotPending (settled b o)
NotPending-settled b none h = tt
NotPending-settled true (some o) h = simp h refl
NotPending-settled false (some o) h = h

-- Both operations of an update are settled when the update is aborted.
aborted_both-NotPending :
    (u : FirmwareUpdate) (j : ℕ) (t : _)
    → (refers_to u.execute_operation j || refers_to u.send_uri_operation j) ≡ true
    → NotPending (get j (aborted_both u t))
aborted_both-NotPending u j t h =
    let outer = get-aborted u.send_uri_operation j (aborted u.execute_operation t) in
    let inner = get-aborted u.execute_operation j t in
    elim (Bool-cases (refers_to u.send_uri_operation j)) [
      | inl uri ↦ rw outer (
          settled-NotPending (refers_to u.send_uri_operation j)
            (get j (aborted u.execute_operation t)) uri)
      | inr other ↦
          let exec : refers_to u.execute_operation j ≡ true = ground arith in
          rw (outer, inner)
            (NotPending-settled (refers_to u.send_uri_operation j)
              (settled (refers_to u.execute_operation j) (get j t))
              (settled-NotPending (refers_to u.execute_operation j) (get j t) exec))
    ]

-- A device reports a firmware version while its one active update is past the idle state, the
-- firmware and the operations of the update are there, and keys are unique. Then the update ends, as
-- a success exactly when the device runs its firmware and as a failure otherwise, its operations are
-- settled, and nothing else in the database changes.
pub handle_fota_reboot :
    (ep : String) (rt : ResourceType) (value : String) (k : ℕ) (u : FirmwareUpdate) (fw : Firmware)
    (db : Db)
    → IsValid db.updates
    → select (is_active ep) db.updates.rows ≡ (k, u) ∷ []
    → is_version rt ≡ true
    → (u.state == state_idle) ≡ false
    → get u.firmware db.firmwares ≡ some fw
    → HasOperations u db.operations
    → (handle_fota ep rt value db ≡ (ok tt, rebooted fw value k u db))
      × (get k (rebooted fw value k u db).updates
          ≡ some (record (finished fw value u) { timestamp_updated = db.now }))
      × ((j : ℕ)
          → (refers_to u.execute_operation j || refers_to u.send_uri_operation j) ≡ true
          → NotPending (get j (rebooted fw value k u db).operations))
unfolding handle_fota handle_active fail_duplicates dispatch
handle_fota_reboot ep rt value k u fw db valid one version moving here ops =
    let stored : get k db.updates ≡ some u =
      get-Elem (k, u) db.updates valid
        (Elem-select (is_active ep) (k, u) db.updates.rows (rw one (inl refl))).0 in
    (
      simp (one, version, moving) (finish_reboot-eq value k u fw db here ops),
      simp
          (
            get-put k k (record (finished fw value u) { timestamp_updated = db.now }) db.updates,
            (nat_eq_iff k k).1 refl,
            stored,
          )
          refl,
      λ j h. aborted_both-NotPending u j db.operations h,
    )
