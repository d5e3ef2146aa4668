-- ===== src/Tests/Fota.antt =====
-- Firmware updates at a concrete database.
use flownexus.Prelude.{ℕ, ◌≡◌, refl, none, some, true, false, ◌||◌, [], ◌∷◌, map, arith}
use flownexus.Prelude.Int.{pos}
use flownexus.Models.Rows.{ResourceType, Firmware, FirmwareUpdate, string, queued}
use flownexus.Models.Update.{save_update, refers_to}
use flownexus.Fota.{handle_fota}
use flownexus.Fota.Active.{OneActive}
use flownexus.Fota.Reboot.{rebooted, finished, NotPending, handle_fota_reboot}
use flownexus.Models.Db.{Db}
use flownexus.Models.Exec.{ok}
use flownexus.Table.{get}
use flownexus.Fota.Single.{handle_fota-OneActive}
use flownexus.Tests.Data.{deployment, operation, update_of}

abbrev version_type : ResourceType
version_type = record { object_id = pos 3; resource_id = pos 3; name = ""; data_type = string }

-- The device reports the version of the newer update, in its own spelling.
reboot_succeeds :
    map
      (λ (r : ℕ × FirmwareUpdate). r.1.result)
      (handle_fota "urn:imei:1" version_type " V1.0.1-rc1" deployment).1.updates.rows
    ≡ pos 8 ∷ pos 1 ∷ []
unfolding handle_fota save_update
reboot_succeeds = refl

handle_fota-OneActive_example :
    OneActive "urn:imei:1" (handle_fota "urn:imei:1" version_type "v1.0.1-rc1" deployment).1.updates
handle_fota-OneActive_example =
    handle_fota-OneActive "urn:imei:1" version_type "v1.0.1-rc1" deployment (omega arith)
      ((tt, (operation 1 queued 0, refl)), ((tt, (operation 2 queued 2, refl)), tt))

-- The newer update alone.
abbrev pub one_update : Db
one_update = record deployment {
  updates = record { rows = (2, update_of 20 (pos 3) (some 2)) ∷ []; next_id = 3 };
}

abbrev pub rc_firmware : Firmware
rc_firmware = record {
  version = "v1.0.1_rc1";
  created_at = 0;
  binary = some (record { url = "/binaries/v1.0.1_rc1.bin"; size = 4096 });
  is_deleted = false;
}

abbrev pub updating : FirmwareUpdate
updating = update_of 20 (pos 3) (some 2)

handle_fota_reboot_example :
    (handle_fota "urn:imei:1" version_type "V1.0.1-RC1" one_update
      ≡ (ok tt, rebooted rc_firmware "V1.0.1-RC1" 2 updating one_update))
    × (get 2 (rebooted rc_firmware "V1.0.1-RC1" 2 updating one_update).updates
        ≡ some (record (finished rc_firmware "V1.0.1-RC1" updating) { timestamp_updated = 30 }))
    × ((j : ℕ)
        → (refers_to none j || refers_to (some 2) j) ≡ true
        → NotPending (get j (rebooted rc_firmware "V1.0.1-RC1" 2 updating one_update).operations))
handle_fota_reboot_example =
    handle_fota_reboot "urn:imei:1" version_type "V1.0.1-RC1" 2 updating rc_firmware one_update
      (omega arith) refl refl refl refl (tt, (operation 2 queued 2, refl))
