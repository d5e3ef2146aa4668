-- ===== src/Fota/Single.antt =====
-- `handle_fota` leaves at most one active update of the endpoint, whether it returns or raises.
use flownexus.Prelude.{
  ℕ, String, ◌+◌, ◌≤◌, ◌≡◌, refl, sym, subst, ap, true, not, Option, none, some, [], ◌∷◌, nat_key,
  arith, if◌then◌else◌, inl, length,
}
use flownexus.Prelude.Int.{ℤ, int_key}
use flownexus.Table.{Rows, Table, select, count, write, put}
use flownexus.Table.Laws.{IsValid, put-IsValid}
use flownexus.Table.Search.{Elem, Elem-select}
use flownexus.Table.Batch.{count-write, length-select}
use flownexus.Models.Rows.{FirmwareUpdate, ResourceType}
use flownexus.Models.Db.{Db}
use flownexus.Models.Exec.{Action, ok, raise, ◌>>=◌, bind-ok, done, validation_error, when, gets}
use flownexus.Models.Keeps.{
  Keeps, Leads, Leads-bind, Leads-Keeps, Leads-if, keeps_rules, Keeps-pure,
}
use flownexus.Models.Device.{create_resource, create_operation}
use flownexus.Models.Update.{is_active, save_update}
use flownexus.Fota.{
  abort_operation, abort_pending_fota_comms, finish_reboot, start_execute, change_state,
  change_result, check_column, dispatch, the_only, active_updates, fail_duplicates, handle_active,
  handle_fota, is_version,
}
use flownexus.Fota.Active.{AllKnown, OneActive, fail_duplicates-OneActive}

-- The updates are still those of `t`.
abbrev Same : Table FirmwareUpdate → Db → Type 0
Same t db = db.updates ≡ t

abort_operation-Same :
    (t : Table FirmwareUpdate) (o : Option ℕ) → Keeps (Same t) (abort_operation o)
unfolding abort_operation
abort_operation-Same t none = Keeps-pure tt
abort_operation-Same t (some k) = record { at = λ db h. ground arith }

abort-Same :
    (t : Table FirmwareUpdate) (u : FirmwareUpdate) → Keeps (Same t) (abort_pending_fota_comms u)
unfolding abort_pending_fota_comms
abort-Same t u = search (keeps_rules, abort_operation-Same)

create_resource-Same :
    (t : Table FirmwareUpdate) (ts : Option ℕ) (r : _) → Keeps (Same t) (create_resource ts r)
unfolding create_resource
create_resource-Same t ts r = record { at = λ db h. h }

create_operation-Same : (t : Table FirmwareUpdate) (r : ℕ) → Keeps (Same t) (create_operation r)
unfolding create_operation
create_operation-Same t r = record { at = λ db h. h }

start_execute-Same :
    (t : Table FirmwareUpdate) (ep : String) (u : FirmwareUpdate)
    → Keeps (Same t) (start_execute ep u)
unfolding start_execute
start_execute-Same t ep u =
    search (keeps_rules, create_resource-Same, create_operation-Same) depth 9

check_column-Same : (t : Table FirmwareUpdate) (z : ℤ) → Keeps (Same t) (check_column z)
unfolding check_column
check_column-Same t z = search keeps_rules

module _ (ep : String) (t : Table FirmwareUpdate) (one : OneActive ep t) (k : ℕ)
    (u : FirmwareUpdate) (row : Elem (k, u) t.rows) (active : is_active ep k u ≡ true) where
  abbrev One : Db → Type 0
  One db = OneActive ep db.updates

  weaker : (db : Db) → Same t db → One db
  weaker db h = subst (OneActive ep) (sym h) one

  -- The row that was active is the one that is written.
  put-OneActive : (v : FirmwareUpdate) → OneActive ep (put k v t)
  put-OneActive v = (
    put-IsValid k v t one.0,
    rewritten (count-write (is_active ep) 0 t.next_id k v u t.rows one.0 row),
  )
    where
      rewritten :
          count (is_active ep) (write k v t.rows) + (if is_active ep k u then 1 else 0)
            ≡ count (is_active ep) t.rows + (if is_active ep k v then 1 else 0)
          → count (is_active ep) (write k v t.rows) ≤ 1
      rewritten e = ground (arith, active, one.1)

  save_update-One : (v : FirmwareUpdate) → Leads (Same t) One (save_update k v)
  unfolding save_update
  save_update-One v = record {
    at = λ db h.
        subst
          (λ (s : Table FirmwareUpdate).
            OneActive ep (put k (record v { timestamp_updated = db.now }) s))
          (sym h) (put-OneActive (record v { timestamp_updated = db.now }));
  }

  done-One : Leads (Same t) One done
  done-One = Leads-Keeps weaker done (Keeps-pure tt)

  ruleset single_rules = (
    keeps_rules, weaker, save_update-One, done-One, Leads-bind, Leads-if, abort-Same,
    start_execute-Same, check_column-Same,
  )

  finish_reboot-One : (value : String) → Leads (Same t) One (finish_reboot value k u)
  unfolding finish_reboot
  finish_reboot-One value = search single_rules depth 9

  change_state-One : (value : String) → Leads (Same t) One (change_state ep value k u)
  unfolding change_state
  change_state-One value = search single_rules depth 9

  change_result-One : (value : String) → Leads (Same t) One (change_result value k u)
  unfolding change_result
  change_result-One value = search single_rules depth 9

  dispatch-One :
      (rt : ResourceType) (value : String) → Leads (Same t) One (dispatch ep rt value k u)
  unfolding dispatch
  dispatch-One rt value =
      search (done-One, Leads-if, finish_reboot-One, change_state-One, change_result-One)

module _ (ep : String) (rt : ResourceType) (value : String) where
  abbrev One' : Db → Type 0
  One' db = OneActive ep db.updates

  -- `fw_query.get()` and what follows it.
  abbrev on_the_only : Rows ℕ FirmwareUpdate → Action
  on_the_only s = do (k, u) ← the_only s; dispatch ep rt value k u

  on_the_only-One :
      (s : Rows ℕ FirmwareUpdate) (db : Db)
      → select (is_active ep) db.updates.rows ≡ s
      → One' db
      → One' (on_the_only s db).1
  on_the_only-One [] db e one = one
  on_the_only-One ((k, u) ∷ []) db e one =
      let (row, active) =
        Elem-select (is_active ep) (k, u) db.updates.rows
          (subst (Elem (k, u)) (sym e) (inl refl)) in
      (dispatch-One ep db.updates one k u row active rt value).at db refl
  on_the_only-One (r ∷ r' ∷ s) db e one = one

  handle_active-One :
      (s : Rows ℕ FirmwareUpdate) (db : Db)
      → IsValid db.updates
      → AllKnown db.updates.rows db
      → select (is_active ep) db.updates.rows ≡ s
      → One' (handle_active ep rt value s db).1
  unfolding handle_active
  handle_active-One [] db h known e =
      let none_active : count (is_active ep) db.updates.rows ≤ 1 =
        omega (arith, ap length e, length-select (is_active ep) db.updates.rows) in
      (Keeps-when-raise).at db (h, none_active)
    where
      Keeps-when-raise : Keeps One' (when (not (is_version rt)) (raise validation_error))
      Keeps-when-raise = search keeps_rules
  handle_active-One (r ∷ rest) db h known e =
      let (after, returned, one) = fail_duplicates-OneActive ep db h known in
      let returned' =
        subst (λ (s : Rows ℕ FirmwareUpdate). fail_duplicates ep s db ≡ (ok tt, after)) e
          returned in
      let goes_on = λ (_ : Unit {0}). gets (active_updates ep) >>= on_the_only in
      rw (bind-ok (fail_duplicates ep (r ∷ rest)) goes_on db returned')
        (on_the_only-One (select (is_active ep) after.updates.rows) after refl one)

  -- There is at most one active update of the endpoint when `handle_fota` ends, by a return or by an
  -- exception, however many there were: older duplicates are failed before anything else. The
  -- operations that updates refer to exist, and keys are in order.
  pub handle_fota-OneActive :
      (db : Db)
      → IsValid db.updates
      → AllKnown db.updates.rows db
      → OneActive ep (handle_fota ep rt value db).1.updates
  unfolding handle_fota
  handle_fota-OneActive db h known =
      handle_active-One (select (is_active ep) db.updates.rows) db h known refl
