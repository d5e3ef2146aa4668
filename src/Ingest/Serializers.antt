-- ===== src/Ingest/Serializers.antt =====
-- `create` of the single, composite and timestamped resource serializers.
use flownexus.Prelude.{
  ℕ, String, Bool, ◌||◌, Option, none, some, List, [], ◌∷◌, length, ◌==◌, text_key, if◌then◌else◌,
  ltb, nat_eq,
}
use flownexus.Prelude.Int.{ℤ}
use flownexus.Text.{codes}
use flownexus.Text.Number.{int_codes}
use flownexus.Models.Exec.{
  Exec, Action, pure, need, done, for_each, ◌>>=◌, ◌>>◌, key_error, value_error, index_error,
}
use flownexus.Ingest.Resource.{ResourceData, get_or_create_endpoint, create_event, handle_resource}

-- A validated `ObjectSerializer`; `instances` is not required. Each instance is its resources.
pub record ObjectData : Type 0 where
  pub id : ℤ
  pub instances : Option (List (List ResourceData))

-- One timestamp of a Send: `None` is the key "null".
pub record Nodes : Type 0 where
  pub timestamp : String
  pub nodes : List (String × ResourceData)

-- `path.split("/")[1]`: the text between the first two slashes.
abbrev pub until_slash : List ℕ → List ℕ
until_slash [] = []
until_slash (c ∷ s) = if nat_eq c b'/' then [] else c ∷ until_slash s

unfoldable pub second_part : List ℕ → Option (List ℕ)
second_part [] = none
second_part (c ∷ s) =
    let later = second_part s in if nat_eq c b'/' then some (until_slash s) else later

-- `int(path.split("/")[1])`
unfoldable pub object_of_path : String → Exec ℤ
unfolding second_part int_codes
object_of_path path = do
  part ← need index_error (second_part (codes path))
  need value_error (int_codes part)

module _ (is_float : String → Bool) where
  -- `SingleResourceSerializer.create`
  unfoldable pub create_single : String → ℤ → ResourceData → Action
  unfolding get_or_create_endpoint handle_resource
  create_single ep obj_id val = do
    get_or_create_endpoint ep
    handle_resource is_float none ep obj_id val none

  unfoldable pub store_object : String → ObjectData → Action
  unfolding create_event handle_resource
  store_object ep obj = do
    event ← create_event ep obj.id
    instances ← need key_error obj.instances
    for_each (for_each (λ res. handle_resource is_float (some event) ep obj.id res none)) instances

  -- `CompositeResourceSerializer.create`
  unfoldable pub create_composite : String → List ObjectData → Action
  unfolding get_or_create_endpoint store_object
  create_composite ep val = do get_or_create_endpoint ep; for_each (store_object ep) val

  module _ (parse_time : String → Option ℕ) where
    -- `if not event_created: …`; the event is `self.event` from then on.
    unfoldable pub event_for : Bool → String → ℤ → Option ℕ → Exec (Option ℕ)
    unfolding create_event
    event_for several ep obj_id none =
        if several then (do event ← create_event ep obj_id; pure (some event)) else pure none
    event_for several ep obj_id (some event) = pure (some event)

    -- The time of reception stands for the key "null".
    unfoldable pub time_of : String → Exec (Option ℕ)
    time_of ts =
        if ts == "null" then pure none else (do t ← need value_error (parse_time ts); pure (some t))

    unfoldable pub store_nodes :
        Bool → String → String → List (String × ResourceData) → Option ℕ → Exec (Option ℕ)
    unfolding object_of_path event_for time_of handle_resource
    store_nodes several ep ts [] event = pure event
    store_nodes several ep ts ((path, res) ∷ rest) event = do
      obj_id ← object_of_path path
      event ← event_for several ep obj_id event
      t ← time_of ts
      handle_resource is_float event ep obj_id res t
      store_nodes several ep ts rest event

    abbrev several_nodes : Bool → Nodes → Bool
    several_nodes several_times item = ltb 1 (length item.nodes) || several_times

    unfoldable pub store_times : Bool → String → List Nodes → Option ℕ → Exec (Option ℕ)
    unfolding store_nodes
    store_times several_times ep [] event = pure event
    store_times several_times ep (item ∷ rest) event = do
      event ← store_nodes (several_nodes several_times item) ep item.timestamp item.nodes event
      store_times several_times ep rest event

    unfoldable pub store_items : Bool → String → List (List Nodes) → Option ℕ → Action
    unfolding store_times
    store_items several_times ep [] event = done
    store_items several_times ep (item ∷ rest) event = do
      event ← store_times several_times ep item event
      store_items several_times ep rest event

    -- `TimestampedResourceSerializer.create`
    unfoldable pub create_timestamped : String → List (List Nodes) → Action
    unfolding get_or_create_endpoint store_items
    create_timestamped ep val = do
      get_or_create_endpoint ep
      store_items (ltb 1 (length val)) ep val none
