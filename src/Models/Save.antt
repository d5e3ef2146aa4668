-- ===== src/Models/Save.antt =====
-- What `FirmwareUpdate.save` of a new update leaves, whether it returns or raises.
use flownexus.Prelude.{ℕ, String, ◌≡◌, refl, ap, Option, ◌⊎◌, inl, inr}
use flownexus.Table.{Table, insert}
use flownexus.Models.Rows.{FirmwareUpdate, result_default, Resource}
use flownexus.Models.Db.{Db}
use flownexus.Models.Exec.{Result, ok, err, roll_back}
use flownexus.Models.Keeps.{Keeps, Leads, Leads-bind, keeps_rules}
use flownexus.Models.Device.{create_resource, create_operation}
use flownexus.Models.Update.{insert_update, write_new_update, save_new_update}

-- The updates are still those of `t`.
abbrev pub Same : Table FirmwareUpdate → Db → Type 0
Same t db = db.updates ≡ t

-- One new update of this firmware for the endpoint has been added to `t`.
abbrev pub Inserted : Table FirmwareUpdate → String → ℕ → Db → Type 0
Inserted t ep firmware db =
    (row : FirmwareUpdate) × (row.endpoint ≡ ep)
    × (row.firmware ≡ firmware)
    × (row.result ≡ result_default)
    × (db.updates ≡ insert row t)

abbrev pub Added : Table FirmwareUpdate → String → ℕ → Db → Type 0
Added t ep firmware db = Same t db ⊎ Inserted t ep firmware db

module _ (t : Table FirmwareUpdate) where
  pub create_resource-Same : (ts : Option ℕ) (r : Resource) → Keeps (Same t) (create_resource ts r)
  unfolding create_resource
  create_resource-Same ts r = record { at = λ db h. h }

  pub create_operation-Same : (r : ℕ) → Keeps (Same t) (create_operation r)
  unfolding create_operation
  create_operation-Same r = record { at = λ db h. h }

  module _ (ep : String) (firmware : ℕ) where
    insert_update-Added :
        (uri : Option ℕ) → Leads (Same t) (Added t ep firmware) (insert_update ep firmware uri)
    unfolding insert_update
    insert_update-Added uri = record { at = λ db h. inr (_, refl, refl, refl, ap (insert _) h) }

    rolled_back :
        {A : Type 0} (before : Db) (x : Result A × Db)
        → Same t before
        → Added t ep firmware x.1
        → Added t ep firmware (roll_back before x).1
    rolled_back before (ok a, after) h added = added
    rolled_back before (err e, after) h added = inl h

    weaker : (db : Db) → Same t db → Added t ep firmware db
    weaker db h = inl h

    write_new_update-Added : Leads (Same t) (Added t ep firmware) (write_new_update ep firmware)
    unfolding write_new_update
    write_new_update-Added =
        search
          (
            keeps_rules, weaker, Leads-bind, insert_update-Added, create_resource-Same,
            create_operation-Same,
          )
          depth 12

    pub save_new_update-Added : Leads (Same t) (Added t ep firmware) (save_new_update ep firmware)
    unfolding save_new_update
    save_new_update-Added = record {
      at = λ db h.
          rolled_back db (write_new_update ep firmware db) h (write_new_update-Added.at db h);
    }
