-- ===== src/Models/Update.antt =====
-- `Firmware` and `FirmwareUpdate`: their validation, and `save` of a new and of a stored update.
use flownexus.Prelude.{
  ℕ, ◌*◌, String, Bool, false, ◌&&◌, not, Option, none, some, ◌==◌, nat_key, text_key, ltb,
}
use flownexus.Prelude.Int.{pos, int_key}
use flownexus.Table.{exists, insert, get, put}
use flownexus.Models.Rows.{Firmware, FirmwareUpdate, result_default, state_idle}
use flownexus.Models.Exec.{
  Exec, Action, pure, raise, gets, need, atomic, modify, done, when, ok, ◌>>=◌, validation_error,
  does_not_exist, value_error,
}
use flownexus.Models.Device.{find_type, bare_resource, create_resource, create_operation}

-- 1 MB
abbrev pub max_size : ℕ
max_size = 1 * 1024 * 1024

-- `Firmware.clean`
unfoldable pub clean_firmware : Firmware → Action
clean_firmware fw = elim fw.binary [
  | none ↦ done
  | some file ↦ when (ltb max_size file.size) (raise validation_error)
]

-- An update that has no result yet.
abbrev pub is_active : String → ℕ → FirmwareUpdate → Bool
is_active ep _ u = u.endpoint == ep && u.result == result_default

-- `existing_nodes` of `clean`: the active updates of the endpoint, without the instance itself.
abbrev pub other_active : Option ℕ → String → ℕ → FirmwareUpdate → Bool
other_active none ep k u = is_active ep k u
other_active (some pk) ep k u = is_active ep k u && not (k == pk)

-- `except Exception: pass`
abbrev pub swallow : Action → Action
swallow m db = (ok tt, (m db).1)

-- The body of the `try` in `FirmwareUpdate.clean`.
unfoldable pub refuse_second_update : Option ℕ → String → Action
refuse_second_update pk ep = do
  found ← gets (λ db. exists (other_active pk ep) db.updates.rows)
  when found (raise validation_error)

-- `FirmwareUpdate.clean`; `none` is an endpoint that is not set yet.
unfoldable pub clean_update : Option ℕ → Option String → Action
unfolding refuse_second_update
clean_update pk none = done
clean_update pk (some ep) = swallow (refuse_second_update pk ep)

-- `binary.url`, which raises where no file is set.
abbrev pub file_url : Firmware → Option String
file_url fw = elim fw.binary [ none ↦ none | some file ↦ some file.url ]

unfoldable pub insert_update : String → ℕ → Option ℕ → Exec ℕ
insert_update ep firmware send_uri db = pure db.updates.next_id (record db {
  updates =
      insert
        (record {
          endpoint = ep;
          firmware = firmware;
          state = state_idle;
          result = result_default;
          timestamp_created = db.now;
          timestamp_updated = db.now;
          send_uri_operation = send_uri;
          execute_operation = none;
        })
        db.updates;
})

-- What `FirmwareUpdate.save` of a new update does inside its transaction: the Package URI is written
-- to the device first.
unfoldable pub write_new_update : String → ℕ → Exec ℕ
unfolding find_type create_resource create_operation insert_update
write_new_update ep firmware = do
  rt ← gets (find_type (pos 5) (pos 1))
  (uri_type, _) ← need does_not_exist rt
  fw ← gets (λ db. get firmware db.firmwares)
  fw ← need does_not_exist fw
  url ← need value_error (file_url fw)
  resource ← create_resource none (record (bare_resource ep uri_type) { str_value = some url })
  operation ← create_operation resource
  insert_update ep firmware (some operation)

unfoldable pub save_new_update : String → ℕ → Exec ℕ
unfolding write_new_update
save_new_update ep firmware = atomic (write_new_update ep firmware)

-- Whether a nullable foreign key holds this key.
abbrev pub refers_to : Option ℕ → ℕ → Bool
refers_to none k = false
refers_to (some j) k = j == k

-- `save` of an update that was read before; `timestamp_updated` is set by each save.
unfoldable pub save_update : ℕ → FirmwareUpdate → Action
save_update k u =
    modify
      (λ db. record db { updates = put k (record u { timestamp_updated = db.now }) db.updates })
