-- ===== src/Ingest/Stores.antt =====
-- What every write of the ingest keeps, the serializers keep.
use flownexus.Prelude.{ℕ, String, Bool, Option, none, some, List, [], ◌∷◌}
use flownexus.Prelude.Int.{ℤ}
use flownexus.Models.Rows.{Resource, ResourceType}
use flownexus.Models.Db.{Db}
use flownexus.Models.Exec.{Action}
use flownexus.Models.Keeps.{Keeps, keeps_rules}
use flownexus.Models.Device.{Field, value_field, int_value, float_value, str_value, binary_value}
use flownexus.Ingest.Closed.{Writes, Closed}
use flownexus.Ingest.Frame.{resource-Keeps, check_column-Keeps, handle_fota-Keeps}
use flownexus.Ingest.Resource.{
  get_or_create_endpoint, create_event, link_event, Kind, single_resource, multi_resource,
  ResourceData, agreed, store_found, if_single, check_type, store_text, typed_row, store_resource,
  handle_resource,
}
use flownexus.Ingest.Serializers.{
  ObjectData, Nodes, object_of_path, create_single, store_object, create_composite, event_for,
  time_of, store_nodes, store_times, store_items, create_timestamped,
}

module _ {P : Db → Type 0} (w : Writes P) (is_float : String → Bool) where
  store_text-Keeps : (f : Field) (v : String) (r : Resource) → Keeps P (store_text is_float f v r)
  unfolding store_text
  store_text-Keeps int_value v r = search (keeps_rules, check_column-Keeps w) depth 9
  store_text-Keeps float_value v r = search keeps_rules
  store_text-Keeps str_value v r = search keeps_rules
  store_text-Keeps binary_value v r = search keeps_rules

  typed_row-Keeps :
      (rt : ResourceType) (f : Field) (v : String) (r : Resource)
      → Keeps P (typed_row is_float rt f v r)
  unfolding typed_row
  typed_row-Keeps rt f v r = search (keeps_rules, store_text-Keeps) depth 9

  agreed-Keeps : (f g : Option Field) → Keeps P (agreed is_float f g)
  agreed-Keeps none g = search keeps_rules
  agreed-Keeps (some f) none = search keeps_rules
  agreed-Keeps (some f) (some g) = search keeps_rules

  check_type-Keeps : (rt : ResourceType) (res : ResourceData) → Keeps P (check_type is_float rt res)
  unfolding check_type
  check_type-Keeps rt res = agreed-Keeps (value_field res.type) (value_field rt.data_type)

  module _ (e : Option ℕ) (link : (r : ℕ) → Keeps P (link_event e r)) where
    store_resource-Keeps :
        (ep : String) (k : ℕ) (rt : ResourceType) (res : ResourceData) (ts : Option ℕ)
        → Keeps P (store_resource is_float e ep k rt res ts)
    unfolding store_resource
    store_resource-Keeps ep k rt res ts =
        search
          (keeps_rules, resource-Keeps w, handle_fota-Keeps w, typed_row-Keeps, check_type-Keeps)
          depth 14

    store_found-Keeps :
        (ep : String) (res : ResourceData) (ts : Option ℕ) (found : Option (ℕ × ResourceType))
        → Keeps P (store_found is_float e ep res ts found)
    unfolding store_found
    store_found-Keeps ep res ts none = search keeps_rules
    store_found-Keeps ep res ts (some (k, rt)) = store_resource-Keeps ep k rt res ts

    if_single-Keeps : (kind : Kind) (m : Action) → Keeps P m → Keeps P (if_single is_float kind m)
    if_single-Keeps single_resource m h = h
    if_single-Keeps multi_resource m h = search keeps_rules

    pub handle_resource-Keeps :
        (ep : String) (obj : ℤ) (res : ResourceData) (ts : Option ℕ)
        → Keeps P (handle_resource is_float e ep obj res ts)
    unfolding handle_resource
    handle_resource-Keeps ep obj res ts = search (keeps_rules, if_single-Keeps, store_found-Keeps)

module _ {P : Db → Type 0} where
  pub time_of-Keeps :
      (is_float : String → Bool) (parse_time : String → Option ℕ) (ts : String)
      → Keeps P (time_of is_float parse_time ts)
  unfolding time_of
  time_of-Keeps is_float parse_time ts = search keeps_rules depth 9

  pub object_of_path-Keeps : (path : String) → Keeps P (object_of_path path)
  unfolding object_of_path
  object_of_path-Keeps path = search keeps_rules depth 9

module _ {P : Db → Type 0} (closed : Closed P) where
  pub endpoint-Keeps : (ep : String) → Keeps P (get_or_create_endpoint ep)
  endpoint-Keeps = closed.endpoint

  pub kept_resource :
      (is_float : String → Bool) (e : Option ℕ) (ep : String) (obj : ℤ) (res : ResourceData)
      (ts : Option ℕ)
      → Keeps P (handle_resource is_float e ep obj res ts)
  kept_resource is_float e = handle_resource-Keeps closed.writes is_float e (closed.link e)

  event-Keeps : (ep : String) (t : ℤ) → Keeps P (create_event ep t)
  event-Keeps = closed.event

module _ {P : Db → Type 0} (closed : Closed P) (is_float : String → Bool) where
  pub create_single-Keeps :
      (ep : String) (obj : ℤ) (res : ResourceData) → Keeps P (create_single is_float ep obj res)
  unfolding create_single
  create_single-Keeps ep obj res = search (keeps_rules, endpoint-Keeps closed, kept_resource closed)

  store_object-Keeps : (ep : String) (obj : ObjectData) → Keeps P (store_object is_float ep obj)
  unfolding store_object
  store_object-Keeps ep obj = search (keeps_rules, event-Keeps closed, kept_resource closed) depth 9

  pub create_composite-Keeps :
      (ep : String) (objs : List ObjectData) → Keeps P (create_composite is_float ep objs)
  unfolding create_composite
  create_composite-Keeps ep objs =
      search (keeps_rules, endpoint-Keeps closed, store_object-Keeps) depth 9

  module _ (parse_time : String → Option ℕ) where
    event_for-Keeps :
        (several : Bool) (ep : String) (obj : ℤ) (e : Option ℕ)
        → Keeps P (event_for is_float parse_time several ep obj e)
    unfolding event_for
    event_for-Keeps several ep obj none = search (keeps_rules, event-Keeps closed) depth 9
    event_for-Keeps several ep obj (some e) = search keeps_rules

    store_nodes-Keeps :
        (several : Bool) (ep ts : String) (nodes : List (String × ResourceData)) (e : Option ℕ)
        → Keeps P (store_nodes is_float parse_time several ep ts nodes e)
    unfolding store_nodes
    store_nodes-Keeps several ep ts [] e = search keeps_rules
    store_nodes-Keeps several ep ts ((path, res) ∷ rest) e =
        search
          (
            keeps_rules,
            object_of_path-Keeps,
            event_for-Keeps,
            time_of-Keeps,
            kept_resource closed,
            store_nodes-Keeps several ep ts rest,
          )
          depth 14

    store_times-Keeps :
        (several : Bool) (ep : String) (items : List Nodes) (e : Option ℕ)
        → Keeps P (store_times is_float parse_time several ep items e)
    unfolding store_times
    store_times-Keeps several ep [] e = search keeps_rules
    store_times-Keeps several ep (item ∷ rest) e =
        search (keeps_rules, store_nodes-Keeps, store_times-Keeps several ep rest) depth 9

    store_items-Keeps :
        (several : Bool) (ep : String) (items : List (List Nodes)) (e : Option ℕ)
        → Keeps P (store_items is_float parse_time several ep items e)
    unfolding store_items
    store_items-Keeps several ep [] e = search keeps_rules
    store_items-Keeps several ep (item ∷ rest) e =
        search (keeps_rules, store_times-Keeps, store_items-Keeps several ep rest) depth 9

    pub create_timestamped-Keeps :
        (ep : String) (items : List (List Nodes))
        → Keeps P (create_timestamped is_float parse_time ep items)
    unfolding create_timestamped
    create_timestamped-Keeps ep items =
        search (keeps_rules, endpoint-Keeps closed, store_items-Keeps) depth 9
