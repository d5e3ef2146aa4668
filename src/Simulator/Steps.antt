-- ===== src/Simulator/Steps.antt =====
-- Single posts of a simulated device while its update is under way.
use flownexus.Prelude.{
  ℕ, ◌≡◌, refl, sym, subst, ◌∙◌, String, Bool, true, false, Option, none, some, [], ◌∷◌, arith,
  ◌==◌, nat_key, text_key, nat_eq_iff, if◌then◌else◌, inl,
}
use flownexus.Prelude.Int.{ℤ, pos, int_key, fits_column}
use flownexus.Text.Number.{int}
use flownexus.Table.{Table, select, get, put, insert}
use flownexus.Table.Laws.{IsValid, insert-IsValid, put-IsValid, get-insert}
use flownexus.Table.Search.{Elem, Elem-select}
use flownexus.Table.Single.{select-write}
use flownexus.Models.Rows.{
  DataType, integer, string, Resource, ResourceType, EndpointOperation, Firmware, FirmwareUpdate,
  state_downloaded,
}
use flownexus.Models.Db.{Db}
use flownexus.Models.Exec.{ok}
use flownexus.Models.Device.{find_type, value_field, bare_resource, create_resource}
use flownexus.Models.Update.{is_active}
use flownexus.Fota.{check_column, handle_fota}
use flownexus.Fota.Abort.{Known, HasOperations}
use flownexus.Fota.Reports.{
  typed, moved, handle_fota_state, execute_row, downloaded, handle_fota-downloaded,
}
use flownexus.Ingest.Resource.{
  ResourceData, get_or_create_endpoint, handle_resource, store_found, store_resource, typed_row,
  store_text, check_type, link_event,
}
use flownexus.Ingest.Serializers.{create_single}
use flownexus.Models.Keeps.{Keeps}
use flownexus.System.Sound.{endpoint-kept}
use flownexus.Api.{post_single}
use flownexus.Simulator.{singleton, SinglePost, send}

abbrev pub HasType : ℤ → ℤ → DataType → Db → Type 0
HasType obj res t db =
    (j : ℕ) × (name : String) × (find_type obj res db ≡ some (j, typed obj res name t))

-- One update of the device is active, and what its progress needs is there.
abbrev pub UnderWay : String → ℕ → Firmware → FirmwareUpdate → Db → Type 0
UnderWay ep k fw u db =
    IsValid db.updates
    × IsValid db.operations
    × (select (is_active ep) db.updates.rows ≡ (k, u) ∷ [])
    × (get u.firmware db.firmwares ≡ some fw)
    × HasOperations u db.operations

-- The resource types that the device reports, and the one that executes an update.
abbrev pub HasTypes : Db → Type 0
HasTypes db =
    HasType (pos 5) (pos 3) integer db
    × HasType (pos 3) (pos 3) string db
    × ((j : ℕ) × (rt : ResourceType) × (find_type (pos 5) (pos 2) db ≡ some (j, rt)))

module _ (ep : String) (k : ℕ) (fw : Firmware) where
  abbrev pub Ready : FirmwareUpdate → Db → Type 0
  Ready u db = UnderWay ep k fw u db × HasTypes db

  pub known_endpoint : (u : FirmwareUpdate) → Keeps (Ready u) (get_or_create_endpoint ep)
  unfolding find_type
  known_endpoint u = endpoint-kept (λ db rows h. h) ep

abbrev pub stored : Resource → Db → Db
stored r db = record db {
  resources = insert (record r { timestamp_created = db.now }) db.resources;
}

module _ (is_float : String → Bool) (ep : String) where
  -- A report of a state reaches `handle_fota` after its value was stored.
  report_state :
      (text name : String) (j : ℕ) (z : ℤ) (db : Db)
      → find_type (pos 5) (pos 3) db ≡ some (j, typed (pos 5) (pos 3) name integer)
      → int text ≡ some z
      → fits_column z ≡ true
      → handle_resource is_float none ep (pos 5) (singleton (pos 3) integer text) none db
        ≡ handle_fota ep
            (typed (pos 5) (pos 3) name integer)
            text
            (stored (record (bare_resource ep j) { int_value = some z }) db)
  unfolding handle_resource store_found store_resource check_type value_field typed_row store_text
      check_column create_resource link_event
  report_state text name j z db found reads fits = simp (found, reads, fits) refl

  pub report_version :
      (version name : String) (j : ℕ) (db : Db)
      → find_type (pos 3) (pos 3) db ≡ some (j, typed (pos 3) (pos 3) name string)
      → handle_resource is_float none ep (pos 3) (singleton (pos 3) string version) none db
        ≡ handle_fota ep
            (typed (pos 3) (pos 3) name string)
            version
            (stored (record (bare_resource ep j) { str_value = some version }) db)
  unfolding handle_resource store_found store_resource check_type value_field typed_row store_text
      create_resource link_event
  report_version version name j db found = simp found refl

  abbrev pub greeted : Db → Db
  greeted db = (get_or_create_endpoint ep db).1

  pub send-eq :
      (obj : ℤ) (val : ResourceData) (db after : Db)
      → handle_resource is_float none ep obj val none (greeted db) ≡ (ok tt, after)
      → send is_float (ep, obj, val) db ≡ (true, after)
  unfolding send post_single create_single get_or_create_endpoint
  send-eq obj val db after e = simp e refl

-- What an insertion leaves known.
Known-insert :
    (o : Option ℕ) (a : EndpointOperation) (t : Table EndpointOperation)
    → IsValid t
    → Known o t
    → Known o (insert a t)
Known-insert none a t v h = tt
Known-insert (some j) a t v (x, e) =
    (if t.next_id == j then a else x, rw (get-insert j a t v) (ground (arith, e)))

-- The update is still the one that is active after it was saved without a result.
still_active :
    (ep : String) (k : ℕ) (u v : FirmwareUpdate) (t : Table FirmwareUpdate)
    → IsValid t
    → select (is_active ep) t.rows ≡ (k, u) ∷ []
    → v.endpoint ≡ u.endpoint
    → v.result ≡ u.result
    → select (is_active ep) (put k v t).rows ≡ (k, v) ∷ []
still_active ep k u v t valid one same_endpoint same_result =
    let (row, active) =
      Elem-select (is_active ep) (k, u) t.rows (subst (Elem (k, u)) (sym one) (inl refl)) in
    let active_still : is_active ep k v ≡ true = rw (same_endpoint, same_result) active in
    rw (select-write (is_active ep) 0 t.next_id k u v t.rows valid one, active_still) refl

module _ (is_float : String → Bool) (ep : String) (k : ℕ) (fw : Firmware) where
  -- A post that is answered by 201 and leaves the update under way, in this state.
  abbrev pub Step : SinglePost → ℤ → Db → Type 0
  Step p z db =
      (after : Db) × (u : FirmwareUpdate) × (send is_float p db ≡ (true, after))
      × Ready ep k fw u after
      × (u.state ≡ z)

  -- The same of what is done once the device is known.
  abbrev pub Handled : ℤ → ResourceData → ℤ → Db → Type 0
  Handled obj val z db =
      (after : Db) × (u : FirmwareUpdate) × (handle_resource is_float none ep obj val none db
        ≡ (ok tt, after))
      × Ready ep k fw u after
      × (u.state ≡ z)

  pub sent :
      (obj : ℤ) (val : ResourceData) (z : ℤ) (u : FirmwareUpdate) (db : Db)
      → ((mid : Db) → Ready ep k fw u mid → Handled obj val z mid)
      → Ready ep k fw u db
      → Step (ep, obj, val) z db
  sent obj val z u db step ready =
      let (after, u', e, later, at) =
        step (greeted is_float ep db) ((known_endpoint ep k fw u).at db ready) in
      (after, u', send-eq is_float ep obj val db after e, later, at)

  pub state-Handled :
      (text : String) (z : ℤ) (u : FirmwareUpdate) (db : Db)
      → int text ≡ some z
      → fits_column z ≡ true
      → (z == state_downloaded) ≡ false
      → Ready ep k fw u db
      → Handled (pos 5) (singleton (pos 3) integer text) z db
  unfolding find_type
  state-Handled text z u db reads fits other
        ((valid, ops, one, firmware, known), ((j, name, found), version_type, exec_type)) =
      let mid = stored (record (bare_resource ep j) { int_value = some z }) db in
      let u' = moved db.now z u in
      (
        record mid { updates = put k u' db.updates },
        u',
        report_state is_float ep text name j z db found reads fits
            ∙ handle_fota_state ep name text z k u mid one reads fits other,
        (
          (
            put-IsValid k u' db.updates valid,
            ops,
            still_active ep k u u' db.updates valid one refl refl,
            firmware,
            known,
          ),
          ((j, name, found), version_type, exec_type),
        ),
        refl,
      )

  pub downloaded-Handled :
      (u : FirmwareUpdate) (db : Db)
      → Ready ep k fw u db
      → Handled (pos 5) (singleton (pos 3) integer "2") state_downloaded db
  unfolding find_type int
  downloaded-Handled u db
        (
          (valid, ops, one, firmware, (_, uri)),
          ((j, name, found), version_type, (x, rt, exec_type)),
        ) =
      let mid = stored (record (bare_resource ep j) { int_value = some (pos 2) }) db in
      let u' : FirmwareUpdate = record (moved db.now state_downloaded u) {
        execute_operation = some db.operations.next_id;
      } in
      let row = execute_row mid.resources.next_id db.now in
      (
        downloaded ep x k u mid,
        u',
        report_state is_float ep "2" name j (pos 2) db found refl refl
            ∙ handle_fota-downloaded ep name "2" k x rt u mid one refl exec_type,
        (
          (
            put-IsValid k u' db.updates valid,
            insert-IsValid row db.operations ops,
            still_active ep k u u' db.updates valid one refl refl,
            firmware,
            (
              (
                row,
                rw (get-insert db.operations.next_id row db.operations ops)
                    (ground (arith, nat_eq_iff db.operations.next_id db.operations.next_id)),
              ),
              Known-insert u.send_uri_operation row db.operations ops uri,
            ),
          ),
          ((j, name, found), version_type, (x, rt, exec_type)),
        ),
        refl,
      )
