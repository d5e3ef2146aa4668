-- ===== src/Commands.antt =====
-- The management commands of server/django/sensordata/management/commands that fill a database:
-- load_initial_resource_types.py and load_scenario.py. Files are read and parsed outside the model.
pub mod Stored
pub mod Members
pub mod Scenario
pub mod Catalogue
pub mod Memberships
pub mod Provided
pub mod Granted
pub mod SiteNames
pub mod Sites
pub mod Users
pub mod Placing
pub mod Accepted
pub mod Whole
pub mod Sound
use flownexus.Prelude.{
  ℕ, Bool, Option, none, some, List, [], ◌∷◌, ◌&&◌, length, ◌==◌, if◌then◌else◌,
}
use flownexus.Prelude.Int.{ℤ, int_key}
use flownexus.Table.{Table, first, insert, put}
use flownexus.Models.Rows.{ResourceType}
use flownexus.Models.Db.{Db}
use flownexus.Models.Exec.{Exec, Action, pure, modify, for_each, ◌>>◌}
use flownexus.Models.Device.{has_path}

module _ {A : Type 0} where
  abbrev pub save_row : Option (ℕ × A) → A → (A → A) → Table A → ℕ × Table A
  save_row none new change t = (t.next_id, insert new t)
  save_row (some (k, a)) new change t = (k, put k (change a) t)

  -- `update_or_create(…)` of the row that the test finds: the key of the row, and the table.
  unfoldable pub update_or_create : (ℕ → A → Bool) → A → (A → A) → Table A → ℕ × Table A
  update_or_create p new change t = save_row (first p t.rows) new change t

abbrev pub retyped : ResourceType → ResourceType → ResourceType
retyped entry rt = record rt { name = entry.name; data_type = entry.data_type }

-- One round of the loop over the fixture.
unfoldable pub load_type : ResourceType → Table ResourceType → Table ResourceType
unfolding update_or_create
load_type entry t =
    (update_or_create (has_path entry.object_id entry.resource_id) entry (retyped entry) t).1

abbrev pub save_type : ResourceType → Action
save_type entry = modify (λ db. record db { resource_types = load_type entry db.resource_types })

-- `load_initial_resource_types`: the number of entries, which is printed.
unfoldable pub load_initial_resource_types : List ResourceType → Exec ℕ
unfolding load_type
load_initial_resource_types entries = for_each save_type entries >> pure (length entries)
