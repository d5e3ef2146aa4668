-- ===== src/Commands/Members.antt =====
-- The sites and the users of `load_scenario`, with their memberships. Passwords are not stored in the
-- model.
use flownexus.Prelude.{
  ℕ, String, Bool, true, false, ◌&&◌, not, Option, none, some, List, [], ◌∷◌, any, ◌==◌, text_key,
  nat_key, if◌then◌else◌,
}
use flownexus.Table.{Rows, first, find, get, put, delete_where}
use flownexus.Models.Rows.{
  Role, admin, user, Permission, can_view_overview, can_view_firmware, can_view_data_analysis,
  can_manage_firmware, can_perform_operations, can_manage_devices, Permissions, Site,
  SiteMembership, User,
}
use flownexus.Models.Db.{Db}
use flownexus.Models.Exec.{
  Exec, Action, pure, raise, need, modify, for_each, command_error, ◌>>=◌, ◌>>◌,
}
use flownexus.Models.Device.{or_else}
use flownexus.Models.Membership.{same_pair, save_new_membership}
use flownexus.Commands.{update_or_create}

pub record SiteConfig : Type 0 where
  pub name : Option String
  pub description : Option String

-- An entry of a user's `sites`, with its mapping `permissions`.
pub record MembershipConfig : Type 0 where
  pub site : Option String
  pub role : Option Role
  pub permissions : Permission → Option Bool

pub record UserConfig : Type 0 where
  pub username : Option String
  pub password : Option String
  pub is_superuser : Bool
  pub sites : List MembershipConfig

-- A required key of the configuration: absent, of another type, or as it should be.
pub data Part (A : Type 0) : Type 0 where
  missing malformed : Part A
  given : A → Part A

-- `devices` is given by its `count`.
pub record Config : Type 0 where
  pub sites : Part (List SiteConfig)
  pub users : Part (List UserConfig)
  pub devices : Part ℕ
  pub device_assignments : List (String × List ℕ)

abbrev pub filled : {A : Type 0} → Part (List A) → Exec (List A)
filled (given (x ∷ xs)) = pure (x ∷ xs)
filled _ = raise command_error

abbrev pub mapping : Part ℕ → Exec ℕ
mapping (given count) = pure count
mapping _ = raise command_error

-- `_validate_config`, with the parts that it has found to be there. Every refusal is a `CommandError`.
unfoldable pub validate_config : Config → Exec (List SiteConfig × List UserConfig × ℕ)
validate_config c = do
  sites ← filled c.sites
  users ← filled c.users
  count ← mapping c.devices
  pure (sites, users, count)

-- A text that is there and is not empty.
abbrev pub some_text : Option String → Option String
some_text none = none
some_text (some t) = if t == "" then none else some t

-- `sites_map`, the latest entry first.
abbrev pub SitesMap : Type 0
SitesMap = Rows String ℕ

abbrev pub site_named : String → ℕ → Site → Bool
site_named name _ s = s.name == name

unfoldable pub store_site : String → String → Exec ℕ
unfolding update_or_create
store_site name description db =
    let new : Site = record {
      name = name;
      description = description;
      is_active = true;
      created_at = db.now;
    } in
    let (k, t) =
      update_or_create (site_named name) new
        (λ s. record s { description = description; is_active = true }) db.sites in
    pure k (record db { sites = t })

unfoldable pub load_sites : List SiteConfig → SitesMap → Exec SitesMap
unfolding store_site
load_sites [] known = pure known
load_sites (c ∷ rest) known = do
  name ← need command_error (some_text c.name)
  key ← store_site name (or_else c.description "")
  load_sites rest ((name, key) ∷ known)

unfoldable pub store_user : String → Bool → Exec ℕ
unfolding update_or_create
store_user username is_superuser db =
    let new : User = record {
      username = username;
      email = "";
      is_superuser = is_superuser;
      is_staff = is_superuser;
    } in
    let (k, t) =
      update_or_create (λ _ u. u.username == username) new
        (λ u. record u { is_superuser = is_superuser; is_staff = is_superuser }) db.users in
    pure k (record db { users = t })

abbrev is_admin : Role → Bool
is_admin admin = true
is_admin user = false

-- The defaults of a membership's columns.
unfoldable pub configured : MembershipConfig → Role × Permissions
configured c =
    let role = or_else c.role user in
    let said = λ (p : Permission) (default : Bool). or_else (c.permissions p) default in
    (
      role,
      record {
        view_overview = said can_view_overview true;
        view_firmware = said can_view_firmware (is_admin role);
        view_data_analysis = said can_view_data_analysis true;
        manage_firmware = said can_manage_firmware (is_admin role);
        perform_operations = said can_perform_operations (is_admin role);
        manage_devices = said can_manage_devices false;
      },
    )

-- All six permissions of a new membership are given.
abbrev pub save_membership : Option (ℕ × SiteMembership) → ℕ → ℕ → Role × Permissions → Action
save_membership none u s (role, permissions) =
    save_new_membership (λ _. true)
      (record { member = u; site = s; role = role; permissions = permissions; joined_at = 0 })
save_membership (some (k, m)) u s (role, permissions) = modify (λ db. record db {
  memberships = put k (record m { role = role; permissions = permissions }) db.memberships;
})

unfoldable pub store_membership : ℕ → ℕ → Role × Permissions → Action
unfolding save_new_membership
store_membership u s grant db =
    save_membership (first (same_pair u s) db.memberships.rows) u s grant db

abbrev pub key_of : SitesMap → Option String → Option ℕ
key_of known none = none
key_of known (some name) = find name known

unfoldable pub load_membership : ℕ → SitesMap → MembershipConfig → Action
unfolding store_membership configured
load_membership u known c = do
  s ← need command_error (key_of known c.site)
  store_membership u s (configured c)

abbrev pub is_named : Option Site → Option String → Bool
is_named none name = false
is_named (some s) none = false
is_named (some s) (some name) = s.name == name

-- Whether the site's name is among `desired_site_names`.
abbrev pub is_desired : Option Site → List MembershipConfig → Bool
is_desired site cs = any (λ c. is_named site c.site) cs

abbrev pub is_left_over : Db → ℕ → List MembershipConfig → ℕ → SiteMembership → Bool
is_left_over db u cs _ m = m.member == u && not (is_desired (get m.site db.sites) cs)

abbrev pub delete_memberships : (Db → ℕ → SiteMembership → Bool) → Action
delete_memberships p = modify (λ db. record db { memberships = delete_where (p db) db.memberships })

-- The memberships of a user that is stored under `u`.
unfoldable pub load_memberships : ℕ → Bool → SitesMap → List MembershipConfig → Action
unfolding load_membership
load_memberships u true known cs = delete_memberships (λ db _ m. m.member == u)
load_memberships u false known cs =
    for_each (load_membership u known) cs >> delete_memberships (λ db. is_left_over db u cs)

abbrev pub credentials : UserConfig → Option String
credentials c = elim (some_text c.password) [ none ↦ none | some _ ↦ some_text c.username ]

unfoldable pub load_user : SitesMap → UserConfig → Action
unfolding store_user load_memberships
load_user known c = do
  username ← need command_error (credentials c)
  u ← store_user username c.is_superuser
  load_memberships u c.is_superuser known c.sites

unfoldable pub load_users : SitesMap → List UserConfig → Action
unfolding load_user
load_users known cs = for_each (load_user known) cs
