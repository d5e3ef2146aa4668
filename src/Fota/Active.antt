-- ===== src/Fota/Active.antt =====
-- One active update for each endpoint: what `handle_fota` makes of older duplicates.
use flownexus.Prelude.{
  ℕ, String, ◌≤◌, ◌≡◌, refl, ap, ◌∙◌, Bool, true, not, ◌&&◌, [], ◌∷◌, All, length, ◌==◌, nat_key,
  arith, if◌then◌else◌, Bool-cases, inl, inr,
}
use flownexus.Prelude.Int.{int_key}
use flownexus.Table.{Rows, Table, select, count, put}
use native.Mathlib.Nat.{le_trans}
use flownexus.Table.Laws.{IsValid, put-IsValid}
use flownexus.Table.Batch.{
  write_all, write_all-select, count-update_where, count-key, count-le, length-select,
}
use flownexus.Models.Rows.{FirmwareUpdate, state_idle, result_update_failed}
use flownexus.Models.Db.{Db}
use flownexus.Models.Exec.{ok, bind-ok, for_each}
use flownexus.Models.Update.{is_active, save_update}
use flownexus.Fota.{fail_stale, fail_duplicates, abort_pending_fota_comms, latest_of}
use flownexus.Fota.Abort.{
  HasOperations, HasOperations-aborted, aborted_both, abort_pending_fota_comms-eq,
}

-- The row of an older duplicate after the loop.
abbrev pub failed_update : ℕ → FirmwareUpdate → FirmwareUpdate
failed_update now u = record u {
  result = result_update_failed;
  state = state_idle;
  timestamp_updated = now;
}

abbrev pub fail_one : ℕ × FirmwareUpdate → Db → Db
fail_one (k, u) db = record db {
  operations = aborted_both u db.operations;
  updates = put k (failed_update db.now u) db.updates;
}

abbrev pub fail_all : Rows ℕ FirmwareUpdate → Db → Db
fail_all [] db = db
fail_all (r ∷ s) db = fail_all s (fail_one r db)

fail_stale-eq :
    (r : ℕ × FirmwareUpdate) (db : Db)
    → HasOperations r.1 db.operations
    → fail_stale r db ≡ (ok tt, fail_one r db)
unfolding fail_stale save_update
fail_stale-eq (k, u) db h =
    let stale = record u { result = result_update_failed; state = state_idle } in
    bind-ok (abort_pending_fota_comms stale) (λ _. save_update k stale) db
      (abort_pending_fota_comms-eq stale db h)

abbrev pub AllKnown : Rows ℕ FirmwareUpdate → Db → Type 0
AllKnown s db = All (λ r. HasOperations r.1 db.operations) s

still_known :
    (r : ℕ × FirmwareUpdate) (s : Rows ℕ FirmwareUpdate) (db : Db)
    → AllKnown s db
    → AllKnown s (fail_one r db)
still_known r [] db h = tt
still_known r (x ∷ s) db h =
    (HasOperations-aborted x.1 r.1 db.operations h.0, still_known r s db h.1)

loop-eq :
    (s : Rows ℕ FirmwareUpdate) (db : Db)
    → AllKnown s db
    → for_each fail_stale s db ≡ (ok tt, fail_all s db)
loop-eq [] db h = refl
loop-eq (r ∷ s) db h =
    bind-ok (fail_stale r) (λ _. for_each fail_stale s) db (fail_stale-eq r db h.0)
    ∙ loop-eq s (fail_one r db) (still_known r s db h.1)

updates-fail_all :
    (s : Rows ℕ FirmwareUpdate) (db : Db)
    → (fail_all s db).updates.rows ≡ write_all (failed_update db.now) s db.updates.rows
updates-fail_all [] db = refl
updates-fail_all (r ∷ s) db = updates-fail_all s (fail_one r db)

module _ (ep : String) where
  abbrev stale_test : ℕ → ℕ → FirmwareUpdate → Bool
  stale_test latest k u = is_active ep k u && not (k == latest)

  kept_is_latest :
      (now latest k : ℕ) (u : FirmwareUpdate)
      → is_active ep k (if stale_test latest k u then failed_update now u else u) ≡ true
      → (is_active ep k u && latest == k) ≡ true
  kept_is_latest now latest k u h = ground arith

  -- At most one update of the endpoint is active.
  abbrev pub OneActive : Table FirmwareUpdate → Type 0
  OneActive t = IsValid t × (count (is_active ep) t.rows ≤ 1)

  All-stale :
      (p : ℕ → FirmwareUpdate → Bool) (s : Rows ℕ FirmwareUpdate) (db : Db)
      → AllKnown s db
      → AllKnown (select p s) db
  All-stale p [] db h = tt
  All-stale p ((k, u) ∷ s) db h = elim (Bool-cases (p k u)) [
    | inl e ↦ rw e (h.0, All-stale p s db h.1)
    | inr e ↦ rw e (All-stale p s db h.1)
  ]

  fail_all-IsValid :
      (s : Rows ℕ FirmwareUpdate) (db : Db) → IsValid db.updates → IsValid (fail_all s db).updates
  fail_all-IsValid [] db h = h
  fail_all-IsValid ((k, u) ∷ s) db h =
      fail_all-IsValid s (fail_one (k, u) db) (put-IsValid k (failed_update db.now u) db.updates h)

  -- After the loop over all active updates but the latest, the latest alone can be active.
  fail_all-OneActive :
      (latest : ℕ) (db : Db)
      → IsValid db.updates
      → OneActive (fail_all (select (stale_test latest) db.updates.rows) db).updates
  fail_all-OneActive latest db h =
      let stale = select (stale_test latest) db.updates.rows in
      let rows = db.updates.rows in
      let as_update =
        updates-fail_all stale db
        ∙ write_all-select (stale_test latest) (failed_update db.now) 0 db.updates.next_id rows h in
      (
        fail_all-IsValid stale db h,
        rw
            (
              as_update,
              count-update_where (is_active ep) (stale_test latest) (failed_update db.now) rows,
            )
            (le_trans
              (count-le _ (λ k u. is_active ep k u && latest == k) rows
                (kept_is_latest db.now latest))
              (count-key latest 0 db.updates.next_id (is_active ep) rows h)),
      )

  abbrev Leaves : Rows ℕ FirmwareUpdate → Db → Type 0
  Leaves s db = (after : Db) × (fail_duplicates ep s db ≡ (ok tt, after)) × OneActive after.updates

  duplicates_by_number :
      (s : Rows ℕ FirmwareUpdate) (db : Db)
      → IsValid db.updates
      → AllKnown db.updates.rows db
      → select (is_active ep) db.updates.rows ≡ s
      → Leaves s db
  unfolding fail_duplicates
  duplicates_by_number [] db h known e =
      (db, refl, (h, omega (arith, ap length e, length-select (is_active ep) db.updates.rows)))
  duplicates_by_number (r ∷ []) db h known e =
      (db, refl, (h, omega (arith, ap length e, length-select (is_active ep) db.updates.rows)))
  duplicates_by_number (r ∷ s ∷ rest) db h known e =
      let latest : ℕ = (latest_of r (s ∷ rest)).0 in
      let stale : Rows ℕ FirmwareUpdate = select (stale_test latest) db.updates.rows in
      (
        fail_all stale db,
        loop-eq stale db (All-stale (stale_test latest) db.updates.rows db known),
        fail_all-OneActive latest db h,
      )

  -- `fail_duplicates` returns, and at most one active update is left.
  pub fail_duplicates-OneActive :
      (db : Db)
      → IsValid db.updates
      → AllKnown db.updates.rows db
      → Leaves (select (is_active ep) db.updates.rows) db
  fail_duplicates-OneActive db h known =
      duplicates_by_number (select (is_active ep) db.updates.rows) db h known refl
