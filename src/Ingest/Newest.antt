-- ===== src/Ingest/Newest.antt =====
-- Registration events of one endpoint in any order.
use flownexus.Prelude.{
  ◌≡◌, refl, ap, ◌∙◌, String, Bool, Option, none, some, List, [], ◌∷◌, text_key, nat_key,
}
use flownexus.Prelude.Int.{ℤ, int_key}
use flownexus.Table.{find}
use flownexus.Table.Laws.{IsValid}
use flownexus.Models.Db.{Db}
use flownexus.Models.Exec.{ok, proceed-ok, Action, for_each}
use flownexus.Models.Device.{find_type}
use flownexus.Ingest.Registration.{RegistrationEvent, create_registration, latest_event}
use flownexus.Ingest.Order.{run, Told, NotOlder, run_newest}
use flownexus.Ingest.Refines.{registered_of, view, HasType, create_registration-step}

-- The types of all three events are there.
abbrev pub HasTypes : Db → Type 0
HasTypes db = (event : RegistrationEvent) → HasType event db

-- The events of one endpoint, one after another.
abbrev pub create_all : String → List (RegistrationEvent × ℤ) → Action
create_all ep = for_each (λ (event, time). create_registration ep event time)

HasType-moves :
    (event : RegistrationEvent) (db after : Db)
    → after.resource_types ≡ db.resource_types
    → HasType event db
    → HasType event after
unfolding find_type
HasType-moves event db after types has = simp types has

create_all-run :
    (ep : String) (evs : List (RegistrationEvent × ℤ)) (db : Db)
    → IsValid db.resource_types
    → HasTypes db
    → ((create_all ep evs db).0 ≡ ok tt) × (view ep (create_all ep evs db).1 ≡ run evs (view ep db))
create_all-run ep [] db valid has = (refl, refl)
create_all-run ep ((event, time) ∷ rest) db valid has =
    let after = (create_registration ep event time db).1 in
    let (quiet, (one, types)) = create_registration-step ep event time db valid (has event) in
    let (ends, later) =
      create_all-run ep rest after (rw types valid)
        (λ (other : RegistrationEvent). HasType-moves other db after types (has other)) in
    rw
      (proceed-ok (λ (u : Unit {0}). create_all ep rest) (create_registration ep event time db) tt
        quiet)
      (ends, later ∙ ap (run rest) one)

-- However the events of an endpoint arrive, where it had none before: each is created, and then the
-- endpoint is registered or not as one of them says that no other is newer than.
pub create_all-newest :
    (ep : String) (e : RegistrationEvent × ℤ) (evs : List (RegistrationEvent × ℤ)) (db : Db)
    → IsValid db.resource_types
    → HasTypes db
    → latest_event ep db ≡ none
    → ((create_all ep (e ∷ evs) db).0 ≡ ok tt)
      × ((t : ℤ) × (flag : Bool) × (view ep (create_all ep (e ∷ evs) db).1 ≡ (some t, flag))
          × Told t flag (e ∷ evs)
          × NotOlder t (e ∷ evs))
create_all-newest ep e evs db valid has first_ones =
    let (quiet, after) = create_all-run ep (e ∷ evs) db valid has in
    let (t, flag, result, told, newest) = run_newest e evs (registered_of (find ep db.endpoints)) in
    let start : view ep db ≡ (none, registered_of (find ep db.endpoints)) =
      ap (λ (l : Option ℤ). (l, registered_of (find ep db.endpoints))) first_ones in
    (quiet, (t, flag, after ∙ ap (run (e ∷ evs)) start ∙ result, told, newest))
