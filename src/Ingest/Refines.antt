-- ===== src/Ingest/Refines.antt =====
-- `RegistrationEventSerializer.create` implements the abstract view of registration events.
use flownexus.Prelude.{
  ℕ, ◌≡◌, refl, sym, ap, ◌∙◌, String, Bool, true, false, Option, none, some, [], ◌∷◌, ◌++◌, ◌==◌,
  text_key, if◌then◌else◌, arith, Bool-cases, Option-cases, inl, inr, nat_key, is_some,
}
use flownexus.Prelude.Int.{ℤ, int_key}
use flownexus.Table.{Rows, Table, get, find, insert}
use flownexus.Table.Laws.{IsValid, find-append, find-update_where}
use flownexus.Table.Search.{Elem-first, get-Elem}
use flownexus.Models.Rows.{Endpoint, ResourceType, Resource}
use flownexus.Models.Db.{Db}
use flownexus.Models.Exec.{ok}
use flownexus.Models.Device.{find_type, has_path, create_resource, bare_resource}
use flownexus.Ingest.Resource.{get_or_create_endpoint}
use flownexus.Ingest.Registration.{
  RegistrationEvent, registered, unregistered, updated, create_registration, latest_event, max_time,
  is_event_of, newer, registration_object, event_resource_id, set_registered, apply_event,
  store_event, is_older, write_registered,
}
use flownexus.Ingest.Order.{View, step, tells, newer_assoc}

abbrev pub registered_of : Option Endpoint → Bool
registered_of none = false
registered_of (some e) = e.registered

-- The view of an endpoint that the database holds.
abbrev pub view : String → Db → View
view ep db = (latest_event ep db, registered_of (find ep db.endpoints))

max_time-append :
    (p : Resource → Bool) (k : ℕ) (r : Resource) (rows : Rows ℕ Resource)
    → max_time p (rows ++ (k, r) ∷ []) ≡ newer (max_time p rows) (if p r then r.int_value else none)
max_time-append p k r [] = ground arith
max_time-append p k r ((j, s) ∷ rows) = rw (max_time-append p k r rows) (
    sym (
      newer_assoc (if p s then s.int_value else none) (max_time p rows)
        (if p r then r.int_value else none)))

-- The type of an event's row is found, and is one of the object of registration events.
abbrev pub HasType : RegistrationEvent → Db → Type 0
HasType event db = is_some (find_type registration_object (event_resource_id event) db) ≡ true

-- What creating an event leaves.
abbrev Stored : String → RegistrationEvent → ℤ → Db → Db → Type 0
Stored ep event time db after =
    (view ep after ≡ step (event, time) (view ep db)) × (after.resource_types ≡ db.resource_types)

apply_event-fields :
    (ep : String) (event : RegistrationEvent) (db : Db)
    → ((apply_event ep event db).0 ≡ ok tt)
      × ((apply_event ep event db).1.endpoints ≡ write_registered ep (tells event) db.endpoints)
      × ((apply_event ep event db).1.resources ≡ db.resources)
      × ((apply_event ep event db).1.resource_types ≡ db.resource_types)
unfolding apply_event set_registered
apply_event-fields ep registered db = (refl, refl, refl, refl)
apply_event-fields ep unregistered db = (refl, refl, refl, refl)
apply_event-fields ep updated db = (refl, refl, refl, refl)

registered_of-write :
    (ep : String) (flag : Bool) (rows : Rows String Endpoint)
    → is_some (find ep rows) ≡ true
    → registered_of (find ep (write_registered ep flag rows)) ≡ flag
registered_of-write ep flag rows there =
    let known = find-update_where (λ k _. k == ep) (λ e. record e { registered = flag }) ep rows in
    rw known (elim (Option-cases (find ep rows)) [
      | inl missing ↦ absurd (ground arith)
      | inr (e, here) ↦ simp (here, (text_key.same_iff ep ep).1 refl) refl
    ])

-- The row of a new event.
abbrev row : String → ℤ → ℕ → ℕ → Resource
row ep time rt now = record (bare_resource ep rt) { int_value = some time; timestamp_created = now }

row-is_event_of :
    (ep : String) (time : ℤ) (rt : ℕ) (t : ResourceType) (db : Db)
    → get rt db.resource_types ≡ some t
    → t.object_id ≡ registration_object
    → is_event_of db ep (row ep time rt db.now) ≡ true
row-is_event_of ep time rt t db found of =
    simp
      (
        found,
        (text_key.same_iff ep ep).1 refl,
        (int_key.same_iff t.object_id registration_object).1 of,
      )
      refl

latest_event-row :
    (ep : String) (time : ℤ) (rt : ℕ) (t : ResourceType) (db : Db)
    → get rt db.resource_types ≡ some t
    → t.object_id ≡ registration_object
    → max_time (is_event_of db ep) (insert (row ep time rt db.now) db.resources).rows
      ≡ newer (latest_event ep db) (some time)
unfolding latest_event
latest_event-row ep time rt t db found of =
    rw
      (
        max_time-append (is_event_of db ep) db.resources.next_id (row ep time rt db.now)
            db.resources.rows,
        row-is_event_of ep time rt t db found of,
      )
      refl

view-fields :
    (ep : String) (after db : Db) {ends : Rows String Endpoint} {rows : Rows ℕ Resource}
    → after.endpoints ≡ ends
    → after.resources.rows ≡ rows
    → after.resource_types ≡ db.resource_types
    → view ep after ≡ (max_time (is_event_of db ep) rows, registered_of (find ep ends))
unfolding latest_event
view-fields ep after db {ends} {rows} e r t =
    simp (e, r)
      (ap
        (λ (types : Table ResourceType). (
          max_time (is_event_of (record db { resource_types = types }) ep) rows,
          registered_of (find ep ends),
        ))
        t)

Stored-from :
    (ep : String) (event : RegistrationEvent) (time : ℤ) (db mid after : Db)
    → view ep mid ≡ view ep db
    → mid.resource_types ≡ db.resource_types
    → Stored ep event time mid after
    → Stored ep event time db after
Stored-from ep event time db mid after v t (one, types) =
    (one ∙ ap (step (event, time)) v, types ∙ t)

store_event-Stored :
    (ep : String) (event : RegistrationEvent) (time : ℤ) (rt : ℕ) (t : ResourceType) (db : Db)
    → get rt db.resource_types ≡ some t
    → t.object_id ≡ registration_object
    → is_some (find ep db.endpoints) ≡ true
    → ((store_event ep event time rt db).0 ≡ ok tt)
      × Stored ep event time db (store_event ep event time rt db).1
unfolding store_event create_resource latest_event
store_event-Stored ep event time rt t db found of there =
    let mid : Db = record db { resources = insert (row ep time rt db.now) db.resources } in
    let latest = latest_event-row ep time rt t db found of in
    let (quiet, ends, res, types) = apply_event-fields ep event mid in
    elim (Bool-cases (is_older time (latest_event ep db))) [
      | inl older ↦ simp (older, latest) (refl, (refl, refl))
      | inr fresh ↦ simp fresh (
        quiet,
        (
          view-fields ep (apply_event ep event mid).1 db ends
                (ap (λ (t : Table Resource). t.rows) res) types
              ∙ rw (latest, registered_of-write ep (tells event) db.endpoints there) refl,
          types,
        ),
      )
    ]

-- An event that is created always takes the view of its endpoint one step further.
pub create_registration-step :
    (ep : String) (event : RegistrationEvent) (time : ℤ) (db : Db)
    → IsValid db.resource_types
    → HasType event db
    → ((create_registration ep event time db).0 ≡ ok tt)
      × Stored ep event time db (create_registration ep event time db).1
unfolding create_registration get_or_create_endpoint find_type latest_event
create_registration-step ep event time db valid has =
    elim (Option-cases (find_type registration_object (event_resource_id event) db)) [
      | inl missing ↦ absurd (ground arith)
      | inr ((rt, t), e) ↦
          let (inside, path) =
            Elem-first (has_path registration_object (event_resource_id event)) (rt, t)
              db.resource_types.rows e in
          let found : get rt db.resource_types ≡ some t =
            get-Elem (rt, t) db.resource_types valid inside in
          let of : t.object_id ≡ registration_object =
            ground (arith, int_key.same_iff t.object_id registration_object) in
          elim (Bool-cases (is_some (find ep db.endpoints))) [
            | inl known ↦ simp (known, e) (store_event-Stored ep event time rt t db found of known)
            | inr unknown ↦
                let gone : find ep db.endpoints ≡ none = ground arith in
                let mid : Db = record db {
                  endpoints = db.endpoints ++ (ep, record { registered = false; site = none }) ∷ [];
                } in
                let new =
                  find-append ep ep (record { registered = false; site = none }) db.endpoints in
                let here : is_some (find ep mid.endpoints) ≡ true =
                  simp (new, gone, (text_key.same_iff ep ep).1 refl) refl in
                let old : view ep mid ≡ view ep db =
                  simp (new, gone, (text_key.same_iff ep ep).1 refl) refl in
                let (quiet, stored) = store_event-Stored ep event time rt t mid found of here in
                simp (unknown, e)
                  (
                    quiet,
                    Stored-from ep event time db mid (store_event ep event time rt mid).1 old refl
                        stored,
                  )
          ]
    ]
