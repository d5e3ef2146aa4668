-- ===== src/Models/Membership.antt =====
-- `SiteMembership`: the permissions that a role starts with, and `save` of a new membership.
use flownexus.Prelude.{ℕ, Bool, true, false, ◌&&◌, ◌==◌, nat_key, if◌then◌else◌}
use flownexus.Table.{exists, insert}
use flownexus.Models.Rows.{
  Role, admin, user, Permission, can_view_overview, can_view_firmware, can_view_data_analysis,
  can_manage_firmware, can_perform_operations, can_manage_devices, Permissions, SiteMembership,
}
use flownexus.Models.Exec.{Action, raise, pure, integrity_error}

-- The defaults that `apply_role_defaults` collects.
unfoldable pub role_defaults : Role → Permissions
role_defaults admin = record {
  view_overview = true;
  view_firmware = true;
  view_data_analysis = true;
  manage_firmware = true;
  perform_operations = true;
  manage_devices = false;
}
role_defaults user = record {
  view_overview = true;
  view_firmware = false;
  view_data_analysis = true;
  manage_firmware = false;
  perform_operations = false;
  manage_devices = false;
}

-- `explicit` is the set `_explicit_permission_fields`.
unfoldable pub apply_role_defaults : Bool → (Permission → Bool) → SiteMembership → SiteMembership
unfolding role_defaults
apply_role_defaults preserve explicit m =
    let d = role_defaults m.role in
    let p = m.permissions in
    let pick = λ (f : Permission) (old new : Bool). if preserve && explicit f then old else new in
    record m {
      permissions = record {
        view_overview = pick can_view_overview p.view_overview d.view_overview;
        view_firmware = pick can_view_firmware p.view_firmware d.view_firmware;
        view_data_analysis = pick can_view_data_analysis p.view_data_analysis d.view_data_analysis;
        manage_firmware = pick can_manage_firmware p.manage_firmware d.manage_firmware;
        perform_operations = pick can_perform_operations p.perform_operations d.perform_operations;
        manage_devices = pick can_manage_devices p.manage_devices d.manage_devices;
      };
    }

abbrev pub same_pair : ℕ → ℕ → ℕ → SiteMembership → Bool
same_pair u s _ m = m.member == u && m.site == s

-- `save` of a membership that is being added; user and site are unique together.
unfoldable pub save_new_membership : (Permission → Bool) → SiteMembership → Action
unfolding apply_role_defaults
save_new_membership explicit m db =
    if exists (same_pair m.member m.site) db.memberships.rows
    then raise integrity_error db
    else pure tt (record db {
      memberships =
          insert (record (apply_role_defaults true explicit m) { joined_at = db.now })
            db.memberships;
    })
