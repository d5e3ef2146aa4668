-- ===== src/Tasks/Queue.antt =====
-- What the tasks of tasks.py do to the database: the writes of `send_operation`, and the
-- operations that `process_pending_operations` sends.
use flownexus.Prelude.{
  ℕ, ◌≡◌, ◌≢◌, refl, true, Option, some, List, map, ◌==◌, nat_key, text_key, arith, Bool-cases, inl,
  inr, nat_eq_iff,
}
use flownexus.Prelude.Int.{int_key}
use flownexus.Table.{Rows, first, get, put}
use flownexus.Table.Laws.{IsValid, get-put}
use flownexus.Table.Search.{Elem-first, get-Elem}
use flownexus.Models.Rows.{
  EndpointOperation, FirmwareUpdate, Task, send_operation, result_default, result_update_failed,
  state_idle,
}
use flownexus.Models.Db.{Db}
use flownexus.Models.Update.{save_update}
use flownexus.Tasks.{
  Response, after_response, finish_send, propagate_failure, belongs_to, is_failed,
}

abbrev failed_update : ℕ → FirmwareUpdate → FirmwareUpdate
failed_update now u = record u {
  result = result_update_failed;
  state = state_idle;
  timestamp_updated = now;
}

propagate_failure-result :
    (k j : ℕ) (u : FirmwareUpdate) (db : Db)
    → IsValid db.updates
    → first (belongs_to k) db.updates.rows ≡ some (j, u)
    → (v : FirmwareUpdate) × (get j (propagate_failure k db).1.updates ≡ some v)
      × (v.result ≢ result_default)
unfolding propagate_failure save_update
propagate_failure-result k j u db valid e =
    let stored : get j db.updates ≡ some u =
      get-Elem (j, u) db.updates valid (Elem-first (belongs_to k) (j, u) db.updates.rows e).0 in
    simp e (elim (Bool-cases (u.result == result_default)) [
      | inl active ↦
          simp
            (
              active,
              stored,
              (nat_eq_iff j j).1 refl,
              get-put j j (failed_update db.now u) db.updates,
            )
            (failed_update db.now u, refl, ground arith)
      | inr ended ↦
          simp (ended) (u, stored, ground (arith, int_key.same_iff u.result result_default))
    ])

-- A failed `send_operation` gives a result to the first firmware update that the operation belongs
-- to, so that this update is no longer active.
pub finish_send-failure :
    (k j : ℕ) (o : EndpointOperation) (response : Option Response) (u : FirmwareUpdate) (db : Db)
    → IsValid db.updates
    → first (belongs_to k) db.updates.rows ≡ some (j, u)
    → is_failed (after_response response o).status ≡ true
    → (v : FirmwareUpdate) × (get j (finish_send k o response db).1.updates ≡ some v)
      × (v.result ≢ result_default)
unfolding finish_send
finish_send-failure k j o response u db valid e failure =
    let mid : Db = record db { operations = put k (after_response response o) db.operations } in
    simp failure (propagate_failure-result k j u mid valid e)

abbrev send_tasks : Rows ℕ EndpointOperation → List Task
send_tasks = map (λ (k, _). send_operation k)
