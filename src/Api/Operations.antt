-- ===== src/Api/Operations.antt =====
-- `EndpointOperationView.post`: an operation is stored for the endpoint of the URL only.
use flownexus.Prelude.{
  ℕ, ◌≡◌, ◌≢◌, refl, String, true, false, none, some, ◌==◌, text_key, nat_key, Bool-cases,
  Option-cases, inl, inr, ◌⊎◌, is_some, ap, ◌∙◌,
}
use flownexus.Table.{find, get, insert}
use flownexus.Models.Rows.{Resource}
use flownexus.Models.Db.{Db}
use flownexus.Models.Exec.{ok, err, http_404, Result}
use flownexus.Api.{
  Reply, created, bad_request, OperationData, operation_row, insert_operation, post_operation,
}

-- The endpoint and the resource are there, the resource is the endpoint's own, and its operation is
-- the one row that was added.
abbrev pub Stored : String → OperationData → Db → Result (Reply ℕ) × Db → Type 0
Stored ep d db x =
    (is_some (find ep db.endpoints) ≡ true)
    × ((r : Resource) × (get d.resource db.resources ≡ some r) × (r.endpoint ≡ ep))
    × (x ≡ (
      ok (created db.operations.next_id),
      record db { operations = insert (operation_row d db.now) db.operations },
    ))

-- The request changed nothing: the endpoint is not there, or the resource is not its own.
abbrev pub Refused : String → OperationData → Db → Result (Reply ℕ) × Db → Type 0
Refused ep d db x =
    ((find ep db.endpoints ≡ none) × (x ≡ (err http_404, db)))
    ⊎ (((r : Resource) → get d.resource db.resources ≡ some r → r.endpoint ≢ ep)
        × (x ≡ (ok bad_request, db)))

other_endpoint :
    (ep : String) (r s : Resource) → r ≡ s → (r.endpoint == ep) ≡ false → s.endpoint ≢ ep
other_endpoint ep r s same other own =
    let test : (r.endpoint == ep) ≡ true =
      (text_key.same_iff r.endpoint ep).1 (ap (λ (x : Resource). x.endpoint) same ∙ own) in
    cc

-- A valid operation is either stored, for a resource of the endpoint in the URL, as the one change
-- that is made, or refused with nothing changed: by 404 for an endpoint that is not there, by 400 for
-- a resource that is missing or another endpoint's.
pub post_operation_stores :
    (ep : String) (d : OperationData) (db : Db)
    → Stored ep d db (post_operation ep (some d) db)
      ⊎ Refused ep d db (post_operation ep (some d) db)
unfolding post_operation insert_operation
post_operation_stores ep d db = elim (Option-cases (find ep db.endpoints)) [
  | inl missing ↦ inr (inl (missing, simp missing refl))
  | inr (e, here) ↦ elim (Option-cases (get d.resource db.resources)) [
    | inl gone ↦ inr (inr (λ r h q. cc, simp (here, gone) refl))
    | inr (r, found) ↦ elim (Bool-cases (r.endpoint == ep)) [
      | inl own ↦ inl (
        simp here refl,
        (r, found, (text_key.same_iff r.endpoint ep).0 own),
        simp (here, found, own) refl,
      )
      | inr other ↦
          inr (inr (λ s h. other_endpoint ep r s (cc) other, simp (here, found, other) refl))
    ]
  ]
]
