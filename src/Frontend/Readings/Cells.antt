-- ===== src/Frontend/Readings/Cells.antt =====
-- The values that events show, under the names of their resource types, and the sheet of the event
-- export in `data_analysis_export`. Names are lists of code points.
use flownexus.Prelude.{
  ℕ, suc, ◌-◌, Bool, false, Option, none, some, List, [], ◌∷◌, ◌++◌, map, length, get_elem?, any,
  if◌then◌else◌, nat_eq, ltb,
}
use flownexus.Prelude.Int.{ℤ, pos, negsuc}
use flownexus.Text.{codes, same_codes}
use flownexus.Text.Number.{int_codes, str_int}
use flownexus.Table.{Rows, get}
use flownexus.Models.Rows.{User, DataType, opaque, ResourceType, Resource, Event, EventResource}
use flownexus.Models.Db.{Db}
use flownexus.Models.Exec.{Result, ok, err, value_error, index_error}
use flownexus.Models.Device.{Value, get_value, get_binary_size}
use flownexus.Access.Middleware.{Context}
use flownexus.Frontend.Pump.{links_of}
use flownexus.Frontend.Readings.{Filters, Export, not_allowed, too_long, sheet, export_events}

-- What is shown of a resource: `<raw: … bytes>`, or its value.
pub data Shown : Type 0 where
  raw_size : Option ℕ → Shown
  plain : Value → Shown

abbrev pub shown_as : DataType → ResourceType → Resource → Shown
shown_as opaque rt r = raw_size (get_binary_size r)
shown_as _ rt r = plain (get_value rt r)

abbrev pub Name : Type 0
Name = List ℕ

abbrev pub named : Option Resource → Option ResourceType → List (Name × Shown) → List (Name × Shown)
named (some r) (some rt) rest = (codes rt.name, shown_as rt.data_type rt r) ∷ rest
named _ _ rest = rest

abbrev pub type_of : Db → Option Resource → Option ResourceType
type_of db none = none
type_of db (some r) = get r.resource_type db.resource_types

-- The names and values of `e.resources.all()`.
unfoldable pub named_values : Db → Rows ℕ EventResource → List (Name × Shown)
named_values db [] = []
named_values db ((_, er) ∷ rest) =
    let r = get er.resource db.resources in named r (type_of db r) (named_values db rest)

-- A value of `res_data`: one value, or a list of them.
pub data Held : Type 0 where
  one : Shown → Held
  several : List Shown → Held

abbrev pub extended : Held → Shown → Held
extended (one a) v = several (a ∷ v ∷ [])
extended (several vs) v = several (vs ++ v ∷ [])

-- A dict, in the order in which its names came.
abbrev pub ResData : Type 0
ResData = List (Name × Held)

unfoldable pub remember : Name → Shown → ResData → ResData
remember name v [] = (name, one v) ∷ []
remember name v ((n, h) ∷ rest) =
    let later = remember name v rest in
    if same_codes n name then (n, extended h v) ∷ rest else (n, h) ∷ later

unfoldable pub gathered : List (Name × Shown) → ResData → ResData
unfolding remember
gathered [] data_so_far = data_so_far
gathered ((name, v) ∷ rest) data_so_far = gathered rest (remember name v data_so_far)

-- `res_data` of an event.
unfoldable pub res_data : Db → ℕ → ResData
unfolding named_values gathered
res_data db event = gathered (named_values db (links_of db event)) []

-- `res_data.get(name)`
abbrev pub held : Name → ResData → Option Held
held name [] = none
held name ((n, h) ∷ rest) = if same_codes n name then some h else held name rest

-- `f"{name}[{idx}]"`
abbrev pub indexed : Name → ℕ → Name
indexed name i = name ++ b'[' ∷ (str_int (pos i) ++ b']' ∷ [])

abbrev pub indexes : Name → ℕ → List Shown → List Name
indexes name i [] = []
indexes name i (v ∷ vs) = indexed name i ∷ indexes name (suc i) vs

abbrev pub columns_for : Name × Held → List Name
columns_for (name, one v) = name ∷ []
columns_for (name, several vs) = indexes name 0 vs

abbrev pub has_column : Name → List Name → Bool
has_column name columns = any (λ c. same_codes c name) columns

-- `col_order`: a column comes in where it is first met.
abbrev pub add_column : List Name → Name → List Name
add_column columns name = if has_column name columns then columns else columns ++ name ∷ []

unfoldable pub add_columns : List Name → List Name → List Name
add_columns columns [] = columns
add_columns columns (name ∷ rest) = add_columns (add_column columns name) rest

unfoldable pub add_event : List Name → ResData → List Name
unfolding add_columns
add_event columns [] = columns
add_event columns (item ∷ rest) = add_event (add_columns columns (columns_for item)) rest

unfoldable pub extra_columns : List Name → List ResData → List Name
unfolding add_event
extra_columns columns [] = columns
extra_columns columns (d ∷ rest) = extra_columns (add_event columns d) rest

abbrev pub met : ℕ → List ℕ → Option (List ℕ × List ℕ) → Option (List ℕ × List ℕ)
met c s (some (before, after)) = some (c ∷ before, after)
met c s none = if nat_eq c b'[' then some ([], s) else none

-- What stands before and after the last bracket: `col.rfind("[")`.
unfoldable pub last_bracket : List ℕ → Option (List ℕ × List ℕ)
last_bracket [] = none
last_bracket (c ∷ s) = met c s (last_bracket s)

-- `col.endswith("]")`
abbrev pub ends_in_bracket : List ℕ → Bool
ends_in_bracket [] = false
ends_in_bracket (c ∷ []) = nat_eq c b']'
ends_in_bracket (c ∷ d ∷ s) = ends_in_bracket (d ∷ s)

abbrev pub without_last : List ℕ → List ℕ
without_last [] = []
without_last (c ∷ []) = []
without_last (c ∷ d ∷ s) = c ∷ without_last (d ∷ s)

-- A cell: empty, or a value.
abbrev pub Cell : Type 0
Cell = Option Shown

-- `val_list[idx]` where `idx < len(val_list)`; an index below zero counts from the end.
abbrev pub from_end : Option Shown → Result Cell
from_end none = err index_error
from_end (some v) = ok (some v)

unfoldable pub item : ℤ → Option Held → Result Cell
item i none = ok none
item i (some (one v)) = ok none
item (pos n) (some (several vs)) = ok (get_elem? vs n)
item (negsuc n) (some (several vs)) =
    if ltb n (length vs) then from_end (get_elem? vs (length vs - suc n)) else err index_error

abbrev pub at_index : Option ℤ → Option Held → Result Cell
at_index none h = err value_error
at_index (some i) h = item i h

abbrev pub scalar : Option Held → Result Cell
scalar (some (one v)) = ok (some v)
scalar _ = ok none

abbrev pub cell_at : Name → ResData → Option (List ℕ × List ℕ) → Result Cell
cell_at col d none = scalar (held col d)
cell_at col d (some (before, after)) =
    if ends_in_bracket col
    then at_index (int_codes (without_last after)) (held before d)
    else scalar (held col d)

unfoldable pub cell : ResData → Name → Result Cell
unfolding last_bracket item
cell d col = cell_at col d (last_bracket col)

abbrev pub both : {A B : Type 0} → (A → B → B) → Result A → Result B → Result B
both f (ok a) (ok b) = ok (f a b)
both f (ok a) (err e) = err e
both f (err e) b = err e

-- The cells of a row after time, endpoint and event type.
unfoldable pub row_cells : ResData → List Name → Result (List Cell)
unfolding cell
row_cells d [] = ok []
row_cells d (col ∷ rest) = both (λ c cs. c ∷ cs) (cell d col) (row_cells d rest)

unfoldable pub event_rows : Db → List Name → Rows ℕ Event → Result (List ((ℕ × Event) × List Cell))
unfolding row_cells res_data
event_rows db columns [] = ok []
event_rows db columns ((k, e) ∷ rest) =
    both (λ cs rows. ((k, e), cs) ∷ rows) (row_cells (res_data db k) columns)
      (event_rows db columns rest)

pub record EventSheet : Type 0 where
  pub columns : List Name
  pub rows : List ((ℕ × Event) × List Cell)

abbrev pub with_columns : List Name → Result (List ((ℕ × Event) × List Cell)) → Result EventSheet
with_columns columns (ok rows) = ok (record { columns = columns; rows = rows })
with_columns columns (err e) = err e

abbrev pub data_of_event : Db → ℕ × Event → ResData
data_of_event db (k, e) = res_data db k

-- The sheet of these events.
unfoldable pub event_sheet : Db → Rows ℕ Event → Result EventSheet
unfolding extra_columns event_rows res_data
event_sheet db events =
    let columns = extra_columns [] (map (data_of_event db) events) in
    with_columns columns (event_rows db columns events)

-- `data_analysis_export` in mode `events`: 403, 400, or the sheet; cells may raise.
pub data EventExport : Type 0 where
  forbidden too_many : EventExport
  written : EventSheet → EventExport

abbrev pub written_as : Result EventSheet → Result EventExport
written_as (ok s) = ok (written s)
written_as (err e) = err e

abbrev pub export_as : Db → Export (ℕ × Event) → Result EventExport
export_as db not_allowed = ok forbidden
export_as db too_long = ok too_many
export_as db (sheet events) = written_as (event_sheet db events)

unfoldable pub event_export : Db → ℕ → User → Context → Filters → Result EventExport
unfolding event_sheet export_events
event_export db u user c f = export_as db (export_events db u user c f)
