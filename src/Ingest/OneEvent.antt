-- ===== src/Ingest/OneEvent.antt =====
-- The event of a Send (`TimestampedResourceSerializer.create`): "Create an Event only once for the
-- given endpoint".
use flownexus.Prelude.{
  ℕ, String, Bool, true, false, ◌≡◌, refl, ap, ◌∙◌, Option, none, some, List, [], ◌∷◌, ◌++◌, All,
  append_assoc, append-nil, length, ltb, is_some, text_key, Bool-cases, inl, inr,
}
use flownexus.Prelude.Int.{ℤ}
use flownexus.Table.{Rows, Table, insert, find}
use flownexus.Models.Rows.{Event, EventResource}
use flownexus.Models.Db.{Db}
use flownexus.Models.Keeps.{Keeps}
use flownexus.Models.Gives.{Gives, Gives-pure, Gives-bind, Gives-Keeps, Gives-left}
use flownexus.Models.Device.{create_resource, create_operation}
use flownexus.Models.Update.{save_update}
use flownexus.Ingest.Closed.{Writes}
use flownexus.Ingest.Stores.{handle_resource-Keeps, time_of-Keeps, object_of_path-Keeps}
use flownexus.Ingest.Resource.{
  ResourceData, get_or_create_endpoint, create_event, link_event, handle_resource,
}
use flownexus.Ingest.Serializers.{
  Nodes, object_of_path, event_for, time_of, store_nodes, store_times, store_items,
  create_timestamped,
}

-- These links were added, all of them to the event `k`.
abbrev LinkedTo : ℕ → Rows ℕ EventResource → Rows ℕ EventResource → Type 0
LinkedTo k before after =
    (new : Rows ℕ EventResource) × (after ≡ before ++ new) × All (λ r. r.1.event ≡ k) new

-- What a request of the device `ep` has made of the events and of their links: nothing, or one event
-- of that device, and links to it alone.
abbrev pub Added : String → Db → Option ℕ → Table Event → Table EventResource → Type 0
Added ep before none events links = (events ≡ before.events) × (links ≡ before.event_resources)
Added ep before (some k) events links =
    (k ≡ before.events.next_id)
    × ((row : Event) × (row.endpoint ≡ ep) × (events ≡ insert row before.events))
    × LinkedTo k before.event_resources.rows links.rows

All-append :
    {A : Type 0} (P : A → Type 0) (xs : List A) (y : A) → All P xs → P y → All P (xs ++ y ∷ [])
All-append P [] y h p = (p, tt)
All-append P (x ∷ xs) y (h, hs) p = (h, All-append P xs y hs p)

LinkedTo-append :
    (k n r : ℕ) (before after : Rows ℕ EventResource)
    → LinkedTo k before after
    → LinkedTo k before (after ++ (n, record { event = k; resource = r }) ∷ [])
LinkedTo-append k n r before after (new, e, all) = (
  new ++ (n, record { event = k; resource = r }) ∷ [],
  ap (λ rows. rows ++ (n, record { event = k; resource = r }) ∷ []) e
      ∙ append_assoc before new ((n, record { event = k; resource = r }) ∷ []),
  All-append (λ r. r.1.event ≡ k) new (n, record { event = k; resource = r }) all refl,
)

module _ (ep : String) (before : Db) where
  abbrev Stands : Option ℕ → Db → Type 0
  Stands e db = Added ep before e db.events db.event_resources

  abbrev pub OneEvent : Db → Type 0
  OneEvent db = (e : Option ℕ) × Stands e db

  writes : (e : Option ℕ) → Writes (Stands e)
  unfolding create_resource create_operation save_update
  writes e = record {
    resource = λ ts r. record { at = λ db h. h };
    operation = λ r. record { at = λ db h. h };
    saved_operation = λ k o. record { at = λ db h. h };
    saved_update = λ k u. record { at = λ db h. h };
    task = λ t. record { at = λ db h. h };
  }

  link-Stands : (e : Option ℕ) (r : ℕ) → Keeps (Stands e) (link_event e r)
  unfolding link_event
  link-Stands none r = record { at = λ db h. h }
  link-Stands (some k) r = record {
    at = λ db (n, row, links). (
      n,
      row,
      LinkedTo-append k db.event_resources.next_id r before.event_resources.rows
          db.event_resources.rows links,
    );
  }

  endpoint-Stands : (e : Option ℕ) (name : String) → Keeps (Stands e) (get_or_create_endpoint name)
  unfolding get_or_create_endpoint
  endpoint-Stands e name = record {
    at = λ db h. elim (Bool-cases (is_some (find name db.endpoints))) [
      | inl known ↦ simp known h
      | inr new ↦ simp new h
    ];
  }

  create_event-Stands :
      (t : ℤ) → Gives (Stands none) (λ k. Stands (some k)) OneEvent (create_event ep t)
  unfolding create_event
  create_event-Stands t = record {
    at = λ db (e, l). (
      ap (λ t. t.next_id) e,
      (_, refl, ap (insert _) e),
      ([], rw (append-nil before.event_resources.rows) (ap (λ t. t.rows) l), tt),
    );
  }

  stops : (e : Option ℕ) (db : Db) → Stands e db → OneEvent db
  stops e db h = (e, h)

  module _ (is_float : String → Bool) (parse_time : String → Option ℕ) where
    event_for-Stands :
        (several : Bool) (t : ℤ) (e : Option ℕ)
        → Gives (Stands e) Stands OneEvent (event_for is_float parse_time several ep t e)
    unfolding event_for
    event_for-Stands true t none =
        Gives-bind (create_event ep t) _ (create_event-Stands t)
          (λ k. Gives-pure (some k) (λ db h. h))
    event_for-Stands false t none = Gives-pure none (λ db h. h)
    event_for-Stands several t (some k) = Gives-pure (some k) (λ db h. h)

    resource-Stands :
        (e : Option ℕ) (t : ℤ) (res : ResourceData) (ts : Option ℕ)
        → Gives (Stands e) (λ _. Stands e) OneEvent (handle_resource is_float e ep t res ts)
    resource-Stands e t res ts =
        Gives-Keeps (stops e) _
          (handle_resource-Keeps (writes e) is_float e (link-Stands e) ep t res ts)

    store_nodes-Stands :
        (several : Bool) (ts : String) (nodes : List (String × ResourceData)) (e : Option ℕ)
        → Gives (Stands e) Stands OneEvent (store_nodes is_float parse_time several ep ts nodes e)
    unfolding store_nodes
    store_nodes-Stands several ts [] e = Gives-pure e (λ db h. h)
    store_nodes-Stands several ts ((path, res) ∷ rest) e =
        Gives-bind (object_of_path path) _ (Gives-Keeps (stops e) _ (object_of_path-Keeps path))
          (λ t.
            Gives-bind (event_for is_float parse_time several ep t e) _
              (event_for-Stands several t e)
              (λ k.
                Gives-bind (time_of is_float parse_time ts) _
                  (Gives-Keeps (stops k) _ (time_of-Keeps is_float parse_time ts))
                  (λ at.
                    Gives-bind (handle_resource is_float k ep t res at) _
                      (resource-Stands k t res at) (λ _. store_nodes-Stands several ts rest k))))

    store_times-Stands :
        (several : Bool) (items : List Nodes) (e : Option ℕ)
        → Gives (Stands e) Stands OneEvent (store_times is_float parse_time several ep items e)
    unfolding store_times
    store_times-Stands several [] e = Gives-pure e (λ db h. h)
    store_times-Stands several (item ∷ rest) e =
        Gives-bind (store_nodes is_float parse_time _ ep item.timestamp item.nodes e) _
          (store_nodes-Stands _ item.timestamp item.nodes e)
          (λ k. store_times-Stands several rest k)

    store_items-Stands :
        (several : Bool) (items : List (List Nodes)) (e : Option ℕ)
        → Gives
            (Stands e)
            (λ _. OneEvent)
            OneEvent
            (store_items is_float parse_time several ep items e)
    unfolding store_items
    store_items-Stands several [] e = Gives-pure tt (stops e)
    store_items-Stands several (item ∷ rest) e =
        Gives-bind (store_times is_float parse_time several ep item e) _
          (store_times-Stands several item e) (λ k. store_items-Stands several rest k)

    -- However many timestamps and resources a Send of the device `ep` holds, and whether its
    -- processing returns or raises, it adds at most one event: either events and links are as they
    -- were, or there is one more event, it belongs to `ep`, and the links that were added lead to it.
    pub create_timestamped-OneEvent :
        (items : List (List Nodes))
        → OneEvent (create_timestamped is_float parse_time ep items before).1
    unfolding create_timestamped
    create_timestamped-OneEvent items =
        Gives-left (create_timestamped is_float parse_time ep items)
          (Gives-bind (get_or_create_endpoint ep) _
            (Gives-Keeps (stops none) _ (endpoint-Stands none ep))
            (λ _. store_items-Stands (ltb 1 (length items)) items none))
          before (refl, refl)
