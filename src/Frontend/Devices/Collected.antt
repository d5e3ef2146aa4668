-- ===== src/Frontend/Devices/Collected.antt =====
-- The readings that the device list looks at, and the value that it keeps of each slot.
use flownexus.Prelude.{
  ℕ, ◌≤◌, ◌≡◌, refl, ap, ◌∙◌, ◌⊎◌, inl, inr, String, Bool, true, Option, none, some, List, [], ◌∷◌,
  text_key, nat_key, if◌then◌else◌, arith, eq_iff, Bool-cases, Option-cases,
}
use flownexus.Prelude.Int.{pos, int_key, int_eq_iff}
use flownexus.Text.Order.{text_le-IsOrder, leb_ℤ-IsOrder, descending-IsOrder}
use flownexus.Table.{Rows, get}
use flownexus.Table.Search.{Elem}
use flownexus.Table.Sorted.{IsOrder, then_by-IsOrder, on-IsOrder, first_of}
use flownexus.Models.Rows.{ResourceType, Resource}
use flownexus.Models.Db.{Db}
use flownexus.Models.Device.{Value}
use flownexus.Frontend.Devices.{
  Detail, resource_of, resource_display_value, Reading, with_type, readings, detail_le, Slot,
  same_slot, slot_of, Latest, lookup, remember, collect,
}

-- The resource is the device's report of this detail.
abbrev pub Reports : Db → String → Detail → ℕ × Resource → ResourceType → Type 0
Reports db ep d (k, r) rt =
    (get r.resource_type db.resource_types ≡ some rt)
    × (r.endpoint ≡ ep)
    × (rt.object_id ≡ pos 3)
    × (rt.resource_id ≡ resource_of d)

-- No report and no value, or the value that the report with the largest key is shown as.
abbrev pub NewestOf : Db → String → Detail → Option Value → Type 0
NewestOf db ep d v =
    ((v ≡ none)
      × ((x : ℕ × Resource) (rt : ResourceType)
          → Elem x db.resources.rows
          → ¬ Reports db ep d x rt))
    ⊎ ((x : ℕ × Resource) × (rt : ResourceType) × Elem x db.resources.rows
        × Reports db ep d x rt
        × (v ≡ resource_display_value rt x.1)
        × ((y : ℕ × Resource) (t : ResourceType)
            → Elem y db.resources.rows
            → Reports db ep d y t
            → y.0 ≤ x.0))

pub same_slot_sound : (a b : Slot) → same_slot a b ≡ true → a ≡ b
same_slot_sound a b h = ground (
  arith,
  eq_iff a.endpoint b.endpoint,
  int_eq_iff a.object_id b.object_id,
  int_eq_iff a.resource_id b.resource_id,
)

same_slot_refl : (s : Slot) → same_slot s s ≡ true
same_slot_refl s = ground (
  arith,
  eq_iff s.endpoint s.endpoint,
  int_eq_iff s.object_id s.object_id,
  int_eq_iff s.resource_id s.resource_id,
)

abbrev pub in_slot : Slot → Reading → Bool
in_slot s x = same_slot (slot_of x) s

-- What the dictionary has, or the value of the reading that comes first.
abbrev pub or_first : Option (Option Value) → Option Reading → Option (Option Value)
or_first (some v) x = some v
or_first none none = none
or_first none (some x) = some (resource_display_value x.type x.resource)

abbrev this_or : Bool → Reading → Option Reading → Option Reading
this_or b x later = if b then some x else later

remembered :
    (s : Slot) (x : Reading) (found : Latest) (later : Option Reading)
    → or_first (lookup s (remember x found)) later
      ≡ or_first (lookup s found) (this_or (in_slot s x) x later)
unfolding remember
remembered s x found later = elim (Bool-cases (in_slot s x)) [
  | inl here ↦ elim (Option-cases (lookup s found)) [
    | inl e ↦ rw (same_slot_sound (slot_of x) s here) rw (e, here, same_slot_refl s) refl
    | inr (v, e) ↦ rw (same_slot_sound (slot_of x) s here) (simp e)
  ]
  | inr other ↦ elim (Option-cases (lookup (slot_of x) found)) [
    | inl e ↦ rw (e, other) refl
    | inr (v, e) ↦ rw (e, other) refl
  ]
]

pub collect_lem :
    (s : Slot) (xs : List Reading) (found : Latest)
    → lookup s (collect xs found) ≡ or_first (lookup s found) (first_of (in_slot s) xs)
unfolding collect remember
collect_lem s [] found = elim (Option-cases (lookup s found)) [
  | inl e ↦ rw e refl
  | inr (v, e) ↦ rw e refl
]
collect_lem s (x ∷ xs) found =
    collect_lem s xs (remember x found) ∙ remembered s x found (first_of (in_slot s) xs)

with_type-Elem :
    (k : ℕ) (r : Resource) (o : Option ResourceType) (x : Reading) (xs : List Reading)
    → Elem x xs
    → Elem x (with_type k r o xs)
with_type-Elem k r none x xs h = h
with_type-Elem k r (some rt) x xs h = inr h

-- A row of the table and its type are a reading, and the other way.
pub readings-Elem :
    (db : Db) (k : ℕ) (r : Resource) (rt : ResourceType) (rows : Rows ℕ Resource)
    → get r.resource_type db.resource_types ≡ some rt
    → Elem (k, r) rows
    → Elem (record { id = k; resource = r; type = rt }) (readings db rows)
readings-Elem db k r rt [] t h = absurd h
readings-Elem db k r rt ((j, a) ∷ rest) t (inl e) =
    let id : k ≡ j = ap (λ (y : ℕ × Resource). y.0) e in
    let row : r ≡ a = ap (λ (y : ℕ × Resource). y.1) e in rw (← id, ← row, t) (inl refl)
readings-Elem db k r rt ((j, a) ∷ rest) t (inr h) =
    with_type-Elem j a (get a.resource_type db.resource_types)
      (record { id = k; resource = r; type = rt }) (readings db rest)
      (readings-Elem db k r rt rest t h)

pub Elem-readings :
    (db : Db) (x : Reading) (rows : Rows ℕ Resource)
    → Elem x (readings db rows)
    → Elem (x.id, x.resource) rows × (get x.resource.resource_type db.resource_types ≡ some x.type)
Elem-readings db x [] h = absurd h
Elem-readings db x ((j, a) ∷ rest) h =
    found (get a.resource_type db.resource_types) refl h (Elem-readings db x rest)
  where
    found :
        (o : Option ResourceType)
        → get a.resource_type db.resource_types ≡ o
        → Elem x (with_type j a o (readings db rest))
        → (Elem x (readings db rest)
            → Elem (x.id, x.resource) rest
              × (get x.resource.resource_type db.resource_types ≡ some x.type))
        → Elem (x.id, x.resource) ((j, a) ∷ rest)
          × (get x.resource.resource_type db.resource_types ≡ some x.type)
    found none e i go = let (r, t) = go i in (inr r, t)
    found (some rt) e (inl same) go = (inl (rw same refl), rw same e)
    found (some rt) e (inr i) go = let (r, t) = go i in (inr r, t)

pub detail_le-IsOrder : IsOrder detail_le
detail_le-IsOrder =
    then_by-IsOrder (on-IsOrder (λ (x : Reading). x.resource.endpoint) text_le-IsOrder) (
      then_by-IsOrder (on-IsOrder (λ (x : Reading). x.type.object_id) leb_ℤ-IsOrder) (
        then_by-IsOrder (on-IsOrder (λ (x : Reading). x.type.resource_id) leb_ℤ-IsOrder)
          (on-IsOrder (λ (x : Reading). x.id) descending-IsOrder)))
