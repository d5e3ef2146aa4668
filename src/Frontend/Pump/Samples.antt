-- ===== src/Frontend/Pump/Samples.antt =====
-- The two ways in which the pump monitor counts the samples of an event agree.
use flownexus.Prelude.{ℕ, ◌≡◌, refl, [], ◌∷◌, Bool-cases, Option-cases, inl, inr, ◌==◌, nat_key}
use flownexus.Table.{Rows, select, first, get}
use flownexus.Models.Rows.{EventResource}
use flownexus.Models.Db.{Db}
use flownexus.Frontend.Pump.{
  is_raw_link_of, linked, press_raw, binary_length, sample_count, links_of, pm_sample_count,
  is_raw_type,
}

counted :
    (db : Db) (event : ℕ) (rows : Rows ℕ EventResource)
    → binary_length (linked db (first (is_raw_link_of db event) rows))
      ≡ pm_sample_count db (select (λ _ er. er.event == event) rows)
unfolding pm_sample_count binary_length
counted db event [] = refl
counted db event ((k, er) ∷ rows) = elim (Bool-cases (er.event == event)) [
  | inr other ↦ simp other (counted db event rows)
  | inl same ↦ elim (Option-cases (get er.resource db.resources)) [
    | inl gone ↦ simp (same, gone) (counted db event rows)
    | inr (r, there) ↦ elim (Bool-cases (is_raw_type (get r.resource_type db.resource_types))) [
      | inl raw ↦ simp (same, there, raw) refl
      | inr plain ↦ simp (same, there, plain) (counted db event rows)
    ]
  ]
]

-- The number of samples by which the list of events is sorted is the number that it shows: the length
-- of the first raw resource of the event, or 0.
pub sample_count-eq-pm_sample_count :
    (db : Db) (event : ℕ) → sample_count db event ≡ pm_sample_count db (links_of db event)
unfolding sample_count press_raw
sample_count-eq-pm_sample_count db event = counted db event db.event_resources.rows
