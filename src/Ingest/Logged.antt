-- ===== src/Ingest/Logged.antt =====
-- The events of a composite request (`CompositeResourceSerializer.create`): one for each object.
use flownexus.Prelude.{
  ℕ, String, Bool, ◌≡◌, refl, List, [], ◌∷◌, ◌++◌, append_assoc, append-nil, none, some, is_some,
  text_key, Bool-cases, inl, inr,
}
use flownexus.Text.Number.{str_int}
use flownexus.Table.{Table, insert, find}
use flownexus.Models.Rows.{Event}
use flownexus.Models.Db.{Db}
use flownexus.Models.Exec.{need, key_error, for_each}
use flownexus.Models.Keeps.{Keeps, keeps_rules}
use flownexus.Models.Gives.{Ends, Gives, Gives-pure, Gives-bind, Gives-Keeps}
use flownexus.Models.Device.{create_resource, create_operation}
use flownexus.Models.Update.{save_update}
use flownexus.Ingest.Closed.{Writes}
use flownexus.Ingest.Stores.{handle_resource-Keeps}
use flownexus.Ingest.Resource.{
  ResourceData, get_or_create_endpoint, create_event, link_event, handle_resource,
}
use flownexus.Ingest.Serializers.{ObjectData, store_object, create_composite}

-- The event that reports an object, named by the object's number.
abbrev event_of : String → ℕ → ObjectData → Event
event_of ep now obj = record { endpoint = ep; event_type = str_int obj.id; time = now }

abbrev log_all : String → ℕ → List ObjectData → Table Event → Table Event
log_all ep now [] t = t
log_all ep now (obj ∷ objs) t = log_all ep now objs (insert (event_of ep now obj) t)

log_all_end :
    (ep : String) (now : ℕ) (objs : List ObjectData) (obj : ObjectData) (t : Table Event)
    → log_all ep now (objs ++ obj ∷ []) t ≡ insert (event_of ep now obj) (log_all ep now objs t)
log_all_end ep now [] obj t = refl
log_all_end ep now (o ∷ objs) obj t = log_all_end ep now objs obj (insert (event_of ep now o) t)

module _ (ep : String) (before : Db) where
  -- These objects are logged, and the clock of the request stands.
  abbrev pub Logged : List ObjectData → Db → Type 0
  Logged objs db = (db.now ≡ before.now) × (db.events ≡ log_all ep before.now objs before.events)

  -- The first objects of the request are logged.
  abbrev pub LoggedUpTo : List ObjectData → Db → Type 0
  LoggedUpTo objs db =
      (logged : List ObjectData) × (rest : List ObjectData) × (objs ≡ logged ++ rest)
      × Logged logged db

  writes : (objs : List ObjectData) → Writes (Logged objs)
  unfolding create_resource create_operation save_update
  writes objs = record {
    resource = λ ts r. record { at = λ db h. h };
    operation = λ r. record { at = λ db h. h };
    saved_operation = λ k o. record { at = λ db h. h };
    saved_update = λ k u. record { at = λ db h. h };
    task = λ t. record { at = λ db h. h };
  }

  link-Logged : (objs : List ObjectData) (e r : ℕ) → Keeps (Logged objs) (link_event (some e) r)
  unfolding link_event
  link-Logged objs e r = record { at = λ db h. h }

  endpoint-Logged : (name : String) → Keeps (Logged []) (get_or_create_endpoint name)
  unfolding get_or_create_endpoint
  endpoint-Logged name = record {
    at = λ db h. elim (Bool-cases (is_some (find name db.endpoints))) [
      | inl known ↦ simp known h
      | inr new ↦ simp new h
    ];
  }

  module _ (is_float : String → Bool) (all : List ObjectData) where
    create_event-Logged :
        (objs : List ObjectData) (obj : ObjectData)
        → Gives
            (Logged objs)
            (λ _. Logged (objs ++ obj ∷ []))
            (LoggedUpTo all)
            (create_event ep obj.id)
    unfolding create_event
    create_event-Logged objs obj = record {
      at = λ db (n, e). (n, rw (log_all_end ep before.now objs obj before.events, n, e) refl);
    }

    resources-Keeps :
        (objs : List ObjectData) (e : ℕ) (obj : ObjectData) (instances : List (List ResourceData))
        → Keeps (Logged objs) (
            for_each
              (for_each (λ res. handle_resource is_float (some e) ep obj.id res none))
              instances)
    resources-Keeps objs e obj instances =
        search
          (keeps_rules, handle_resource-Keeps (writes objs) is_float (some e) (link-Logged objs e))

    store_object-Logged :
        (objs : List ObjectData) (obj : ObjectData) (rest : List ObjectData)
        → all ≡ (objs ++ obj ∷ []) ++ rest
        → Gives
            (Logged objs)
            (λ _. Logged (objs ++ obj ∷ []))
            (LoggedUpTo all)
            (store_object is_float ep obj)
    unfolding store_object
    store_object-Logged objs obj rest e =
        Gives-bind (create_event ep obj.id) _ (create_event-Logged objs obj) (λ k.
          Gives-bind (need key_error obj.instances) _
            (Gives-Keeps (λ db h. (objs ++ obj ∷ [], rest, e, h)) _ (search keeps_rules))
            (λ instances.
              Gives-Keeps (λ db h. (objs ++ obj ∷ [], rest, e, h)) _
                (resources-Keeps (objs ++ obj ∷ []) k obj instances)))

    store_objects-Logged :
        (objs rest : List ObjectData)
        → all ≡ objs ++ rest
        → Gives
            (Logged objs)
            (λ _. Logged all)
            (LoggedUpTo all)
            (for_each (store_object is_float ep) rest)
    store_objects-Logged objs [] e = Gives-pure tt (λ db h. rw (e, append-nil objs) h)
    store_objects-Logged objs (obj ∷ rest) e =
        Gives-bind (store_object is_float ep obj) _
          (store_object-Logged objs obj rest (rw (append_assoc objs (obj ∷ []) rest) e))
          (λ _.
            store_objects-Logged (objs ++ obj ∷ []) rest (rw (append_assoc objs (obj ∷ []) rest) e))

  -- A composite request of the device `ep` adds, for each of its objects and in their order, one
  -- event of that device, named by the object's number and with the time of the request. If it
  -- raises, it has done so for the first objects, and for no other.
  pub create_composite-Ends :
      (is_float : String → Bool) (objs : List ObjectData)
      → Ends (λ _. Logged objs) (LoggedUpTo objs) (create_composite is_float ep objs before)
  unfolding create_composite
  create_composite-Ends is_float objs =
      (Gives-bind (get_or_create_endpoint ep) _
          (Gives-Keeps (λ db h. ([], objs, refl, h)) _ (endpoint-Logged ep))
          (λ _. store_objects-Logged is_float objs [] objs refl)).at
        before (refl, refl)
