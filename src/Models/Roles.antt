-- ===== src/Models/Roles.antt =====
-- The permissions that a new membership is stored with.
use flownexus.Prelude.{◌≡◌, refl, ap, Bool, true, false, some, if◌then◌else◌, nat_key, nat_eq_iff}
use flownexus.Table.{exists, get}
use flownexus.Table.Laws.{IsValid, get-insert}
use flownexus.Models.Rows.{
  Role, admin, user, Permission, can_view_overview, can_view_firmware, can_view_data_analysis,
  can_manage_firmware, can_perform_operations, can_manage_devices, allows, SiteMembership,
}
use flownexus.Models.Db.{Db}
use flownexus.Models.Membership.{same_pair, apply_role_defaults, role_defaults, save_new_membership}

-- What a role may do if nothing else is said.
abbrev pub by_default : Role → Permission → Bool
by_default admin can_manage_devices = false
by_default admin p = true
by_default user can_view_overview = true
by_default user can_view_data_analysis = true
by_default user p = false

role_defaults_lem : (r : Role) (p : Permission) → allows (role_defaults r) p ≡ by_default r p
unfolding role_defaults
role_defaults_lem admin can_view_overview = refl
role_defaults_lem admin can_view_firmware = refl
role_defaults_lem admin can_view_data_analysis = refl
role_defaults_lem admin can_manage_firmware = refl
role_defaults_lem admin can_perform_operations = refl
role_defaults_lem admin can_manage_devices = refl
role_defaults_lem user can_view_overview = refl
role_defaults_lem user can_view_firmware = refl
role_defaults_lem user can_view_data_analysis = refl
role_defaults_lem user can_manage_firmware = refl
role_defaults_lem user can_perform_operations = refl
role_defaults_lem user can_manage_devices = refl

default-allows :
    (explicit : Permission → Bool) (m : SiteMembership) (p : Permission)
    → allows (apply_role_defaults true explicit m).permissions p
      ≡ (if explicit p then allows m.permissions p else by_default m.role p)
unfolding apply_role_defaults
default-allows explicit m can_view_overview =
    ap (λ (b : Bool). if explicit can_view_overview then m.permissions.view_overview else b)
      (role_defaults_lem m.role can_view_overview)
default-allows explicit m can_view_firmware =
    ap (λ (b : Bool). if explicit can_view_firmware then m.permissions.view_firmware else b)
      (role_defaults_lem m.role can_view_firmware)
default-allows explicit m can_view_data_analysis =
    ap
      (λ (b : Bool).
        if explicit can_view_data_analysis then m.permissions.view_data_analysis else b)
      (role_defaults_lem m.role can_view_data_analysis)
default-allows explicit m can_manage_firmware =
    ap (λ (b : Bool). if explicit can_manage_firmware then m.permissions.manage_firmware else b)
      (role_defaults_lem m.role can_manage_firmware)
default-allows explicit m can_perform_operations =
    ap
      (λ (b : Bool).
        if explicit can_perform_operations then m.permissions.perform_operations else b)
      (role_defaults_lem m.role can_perform_operations)
default-allows explicit m can_manage_devices =
    ap (λ (b : Bool). if explicit can_manage_devices then m.permissions.manage_devices else b)
      (role_defaults_lem m.role can_manage_devices)

-- A new membership of a user and site that have none yet is stored, and may do what was given
-- explicitly and what its role may do by default for the rest.
pub save_new_membership-allows :
    (explicit : Permission → Bool) (m : SiteMembership) (db : Db)
    → IsValid db.memberships
    → exists (same_pair m.member m.site) db.memberships.rows ≡ false
    → (stored : SiteMembership) × (get db.memberships.next_id
          (save_new_membership explicit m db).1.memberships
        ≡ some stored)
      × (stored.member ≡ m.member)
      × (stored.site ≡ m.site)
      × ((p : Permission)
          → allows stored.permissions p
            ≡ (if explicit p then allows m.permissions p else by_default m.role p))
unfolding save_new_membership apply_role_defaults
save_new_membership-allows explicit m db valid free =
    let row : SiteMembership = record (apply_role_defaults true explicit m) {
      joined_at = db.now;
    } in
    (
      row,
      simp
          (
            free,
            get-insert db.memberships.next_id row db.memberships valid,
            (nat_eq_iff db.memberships.next_id db.memberships.next_id).1 refl,
          )
          refl,
      refl,
      refl,
      default-allows explicit m,
    )
