-- ===== src/Fota/Abort.antt =====
-- `abort_pending_fota_comms`: the effect on the operations, and that nothing else is touched.
use flownexus.Prelude.{
  ℕ, ◌≡◌, refl, ◌∙◌, Bool, ◌&&◌, Option, none, some, arith, ◌==◌, nat_key, if◌then◌else◌,
  Bool-cases, inl, inr, nat_eq_iff,
}
use flownexus.Table.{Table, get, put}
use flownexus.Table.Laws.{get-put}
use flownexus.Models.Rows.{failed, EndpointOperation, FirmwareUpdate}
use flownexus.Models.Db.{Db}
use flownexus.Models.Update.{refers_to}
use flownexus.Models.Exec.{ok, bind-ok}
use flownexus.Fota.{is_pending, abort_operation, abort_pending_fota_comms}

abbrev pub Operations : Type 0
Operations = Table EndpointOperation

abbrev pub failed_op : EndpointOperation → EndpointOperation
failed_op o = record o { status = failed }

-- The operations after one of them was aborted.
abbrev pub aborted_at : ℕ → Option EndpointOperation → Operations → Operations
aborted_at k none t = t
aborted_at k (some o) t = if is_pending o.status then put k (failed_op o) t else t

abbrev pub aborted : Option ℕ → Operations → Operations
aborted none t = t
aborted (some k) t = aborted_at k (get k t) t

abbrev pub aborted_both : FirmwareUpdate → Operations → Operations
aborted_both u t = aborted u.send_uri_operation (aborted u.execute_operation t)

-- A reference to an operation that exists.
abbrev pub Known : Option ℕ → Operations → Type 0
Known none t = Unit
Known (some k) t = (o : EndpointOperation) × (get k t ≡ some o)

abort_operation-eq :
    (o : Option ℕ) (db : Db)
    → Known o db.operations
    → abort_operation o db ≡ (ok tt, record db { operations = aborted o db.operations })
unfolding abort_operation
abort_operation-eq none db h = refl
abort_operation-eq (some k) db (o, e) = elim (Bool-cases (is_pending o.status)) [
  | inl p ↦ simp (e, p) refl
  | inr p ↦ simp (e, p) refl
]

-- What one operation becomes when the operation `b` refers to is aborted.
abbrev pub settled : Bool → Option EndpointOperation → Option EndpointOperation
settled b none = none
settled b (some x) = some (if b && is_pending x.status then failed_op x else x)

get-aborted_at :
    (k j : ℕ) (o : Option EndpointOperation) (t : Operations)
    → get k t ≡ o
    → get j (aborted_at k o t) ≡ settled (k == j) (get j t)
get-aborted_at k j none t e = ground (arith, nat_eq_iff k j)
get-aborted_at k j (some x) t e = elim (Bool-cases (is_pending x.status)) [
  | inl p ↦ rw p (ground (arith, get-put k j (failed_op x) t, nat_eq_iff k j, e, p))
  | inr p ↦ rw p (ground (arith, nat_eq_iff k j, e, p))
]

pub get-aborted :
    (o : Option ℕ) (j : ℕ) (t : Operations)
    → get j (aborted o t) ≡ settled (refers_to o j) (get j t)
get-aborted none j t = ground arith
get-aborted (some k) j t = get-aborted_at k j (get k t) t refl

Known-aborted : (o p : Option ℕ) (t : Operations) → Known o t → Known o (aborted p t)
Known-aborted none p t h = tt
Known-aborted (some j) p t (x, e) =
    let same = get-aborted p j t in
    (if refers_to p j && is_pending x.status then failed_op x else x, rw (same, e) refl)

-- The two operations of an update exist.
abbrev pub HasOperations : FirmwareUpdate → Operations → Type 0
HasOperations u t = Known u.execute_operation t × Known u.send_uri_operation t

pub HasOperations-aborted :
    (u v : FirmwareUpdate) (t : Operations) → HasOperations u t → HasOperations u (aborted_both v t)
HasOperations-aborted u v t (a, b) = (
  Known-aborted u.execute_operation v.send_uri_operation (aborted v.execute_operation t)
      (Known-aborted u.execute_operation v.execute_operation t a),
  Known-aborted u.send_uri_operation v.send_uri_operation (aborted v.execute_operation t)
      (Known-aborted u.send_uri_operation v.execute_operation t b),
)

pub abort_pending_fota_comms-eq :
    (u : FirmwareUpdate) (db : Db)
    → HasOperations u db.operations
    → abort_pending_fota_comms u db
      ≡ (ok tt, record db { operations = aborted_both u db.operations })
unfolding abort_pending_fota_comms
abort_pending_fota_comms-eq u db (a, b) =
    let first = abort_operation-eq u.execute_operation db a in
    let after = record db { operations = aborted u.execute_operation db.operations } in
    let second =
      abort_operation-eq u.send_uri_operation after
        (Known-aborted u.send_uri_operation u.execute_operation db.operations b) in
    bind-ok (abort_operation u.execute_operation) (λ _. abort_operation u.send_uri_operation) db
      first
    ∙ second
