-- ===== src/Commands/Catalogue.antt =====
-- The resource types that `load_initial_resource_types` leaves.
use flownexus.Prelude.{
  ℕ, ◌≡◌, refl, ap, sym, subst, ◌∙◌, String, Bool, true, false, ◌&&◌, Option, none, some, List, [],
  ◌∷◌, ◌==◌, arith, Bool-cases, inl, inr, length, last_of, last_of_again, if◌then◌else◌,
}
use flownexus.Prelude.Int.{ℤ, int_key, int_eq_iff}
use flownexus.Table.{Table, first}
use flownexus.Table.Laws.{IsValid}
use flownexus.Models.Rows.{ResourceType, DataType}
use flownexus.Models.Db.{Db}
use flownexus.Models.Exec.{ok, pure, for_each, proceed-ok}
use flownexus.Models.Device.{has_path}
use flownexus.Commands.{retyped, load_type, save_type, load_initial_resource_types}
use flownexus.Commands.Stored.{
  row_of, stored, update_or_create-stored, update_or_create-kept, update_or_create-IsValid,
}

abbrev pub at_path : ℤ → ℤ → ResourceType → Bool
at_path obj res rt = rt.object_id == obj && rt.resource_id == res

-- The name and the data type of a path.
abbrev described : Option ResourceType → Option (String × DataType)
described none = none
described (some rt) = some (rt.name, rt.data_type)

abbrev pub type_at : ℤ → ℤ → Table ResourceType → Option (String × DataType)
type_at obj res t = described (row_of (first (has_path obj res) t.rows))

abbrev description : ResourceType → String × DataType
description rt = (rt.name, rt.data_type)

-- What the fixture says of a path: its last entry counts.
abbrev pub listed :
    List ResourceType → ℤ → ℤ → Option (String × DataType) → Option (String × DataType)
listed es obj res before = last_of (at_path obj res) description es before

described-stored :
    (e : ResourceType) (o : Option ResourceType)
    → described (some (stored e (retyped e) o)) ≡ some (e.name, e.data_type)
described-stored e none = refl
described-stored e (some rt) = refl

has_own_path : (e : ResourceType) (k : ℕ) → has_path e.object_id e.resource_id k e ≡ true
has_own_path e k =
    ground (arith, int_eq_iff e.object_id e.object_id, int_eq_iff e.resource_id e.resource_id)

-- A row at the entry's path is not at another one.
path_apart :
    (e rt : ResourceType) (obj res : ℤ) (k : ℕ)
    → at_path obj res e ≡ false
    → has_path e.object_id e.resource_id k rt ≡ true
    → has_path obj res k rt ≡ false
path_apart e rt obj res k away h =
    ground (arith, int_eq_iff rt.object_id e.object_id, int_eq_iff rt.resource_id e.resource_id)

module _ (e : ResourceType) (t : Table ResourceType) (valid : IsValid t) where
  load_type-IsValid : IsValid (load_type e t)
  unfolding load_type
  load_type-IsValid =
      update_or_create-IsValid (has_path e.object_id e.resource_id) e (retyped e) t valid

  load_type-at :
      (obj res : ℤ)
      → type_at obj res (load_type e t)
        ≡ (if at_path obj res e then some (e.name, e.data_type) else type_at obj res t)
  unfolding load_type
  load_type-at obj res = elim (Bool-cases (at_path obj res e)) [
    | inl here ↦
        let at_obj : e.object_id ≡ obj = ground (arith, int_eq_iff e.object_id obj) in
        let at_res : e.resource_id ≡ res = ground (arith, int_eq_iff e.resource_id res) in
        let test : has_path e.object_id e.resource_id ≡ has_path obj res =
          rw (at_obj, at_res) refl in
        let found =
          subst
            (λ (p : ℕ → ResourceType → Bool).
              row_of (first p (load_type e t).rows)
              ≡ some (stored e (retyped e) (row_of (first p t.rows))))
            test
            (update_or_create-stored e (retyped e) t valid (has_path e.object_id e.resource_id)
              (λ k a. refl) (has_own_path e t.next_id)) in
        rw here (ap described found ∙ described-stored e (row_of (first (has_path obj res) t.rows)))
    | inr away ↦ rw away (
        ap (λ x. described (row_of x))
          (update_or_create-kept e (retyped e) t valid (has_path e.object_id e.resource_id)
            (has_path obj res) (λ k a. path_apart e a obj res k away)
            (λ k a. path_apart e a obj res k away) away))
  ]

LoadsAs : List ResourceType → Table ResourceType → Table ResourceType → Type 0
LoadsAs es before after =
    IsValid after
    × ((obj res : ℤ) → type_at obj res after ≡ listed es obj res (type_at obj res before))

load_type_each : List ResourceType → Db → Db
load_type_each es db = (for_each save_type es db).1

loaded_each :
    (es : List ResourceType) (db : Db)
    → IsValid db.resource_types
    → LoadsAs es db.resource_types (load_type_each es db).resource_types
unfolding LoadsAs load_type_each
loaded_each [] db v = (v, λ obj res. refl)
loaded_each (e ∷ es) db v =
    let t = load_type e db.resource_types in
    let (valid, rest) =
      loaded_each es (record db { resource_types = t }) (load_type-IsValid e db.resource_types v) in
    (
      valid,
      λ obj res. rest obj res ∙ ap (listed es obj res) (load_type-at e db.resource_types v obj res),
    )

each_ok : (es : List ResourceType) (db : Db) → (for_each save_type es db).0 ≡ ok tt
each_ok [] db = refl
each_ok (e ∷ es) db = each_ok es (record db { resource_types = load_type e db.resource_types })

returned :
    (es : List ResourceType) (db : Db)
    → load_initial_resource_types es db ≡ (ok (length es), load_type_each es db)
unfolding load_initial_resource_types load_type_each
returned es db = proceed-ok (λ x. pure (length es)) (for_each save_type es db) tt (each_ok es db)

-- `load_initial_resource_types` never fails and returns the number of entries. Afterwards each path has
-- the name and the data type of the fixture's last entry for it, or what it had where the fixture has
-- none; loading the fixture a second time changes neither name nor data type of any path. Keys are
-- rising before.
pub load_initial_resource_types-listed :
    (es : List ResourceType) (db : Db)
    → IsValid db.resource_types
    → (load_initial_resource_types es db).0 ≡ ok (length es)
      × ((obj res : ℤ)
          → type_at obj res (load_initial_resource_types es db).1.resource_types
            ≡ listed es obj res (type_at obj res db.resource_types))
      × ((obj res : ℤ)
          → type_at obj res
              (load_initial_resource_types es
                (load_initial_resource_types es db).1).1.resource_types
            ≡ type_at obj res (load_initial_resource_types es db).1.resource_types)
unfolding LoadsAs
load_initial_resource_types-listed es db v =
    let (valid, first_run) = loaded_each es db v in
    let (_, second_run) = loaded_each es (load_type_each es db) valid in
    rw (returned es db, returned es (load_type_each es db))
      (
        refl,
        first_run,
        λ obj res.
            second_run obj res
            ∙ ap (listed es obj res) (first_run obj res)
            ∙ last_of_again (at_path obj res) description es (type_at obj res db.resource_types)
            ∙ sym (first_run obj res),
      )
