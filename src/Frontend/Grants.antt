-- ===== src/Frontend/Grants.antt =====
-- The view `permissions` of server/django/frontend/views.py and the forms of forms.py behind it. The
-- form of a user or a site is given as its cleaned data, `none` where Django refuses it; the checks
-- that forms.py makes itself are written out.
pub mod Unique
pub mod Devices
use flownexus.Prelude.{
  ℕ, String, Bool, true, false, ◌&&◌, ◌||◌, not, Option, none, some, List, [], ◌∷◌, any, ◌==◌,
  nat_key, text_key, if◌then◌else◌, is_some,
}
use flownexus.Table.{Rows, exists, find, get, put, insert, update_where, delete_where}
use flownexus.Models.Rows.{User, Site, Role, Permissions, Permission, SiteMembership, Endpoint}
use flownexus.Models.Db.{Db}
use flownexus.Models.Exec.{
  Exec, Action, pure, raise, gets, need, modify, when, done, ◌>>=◌, ◌>>◌, http_404,
}
use flownexus.Models.Membership.{same_pair, save_new_membership}
use flownexus.Access.Middleware.{is_active_site}
use flownexus.Access.Permissions.{has_no_site}
use flownexus.Frontend.Page.{Page, forbidden, redirected, rendered}

-- The fields that both membership forms have.
pub record Flags : Type 0 where
  pub role : Role
  pub view_overview : Bool
  pub view_firmware : Bool
  pub view_data_analysis : Bool
  pub manage_firmware : Bool
  pub perform_operations : Bool

-- The forms leave `can_manage_devices` as it is.
abbrev pub flagged : Flags → Bool → Permissions
flagged f devices = record {
  view_overview = f.view_overview;
  view_firmware = f.view_firmware;
  view_data_analysis = f.view_data_analysis;
  manage_firmware = f.manage_firmware;
  perform_operations = f.perform_operations;
  manage_devices = devices;
}

-- A POST of the page, by the first key of the view's chain that it has. A key that is missing is
-- `none`.
pub data Grant : Type 0 where
  create_user : Option (String × String) → Grant
  create_site : Option (String × String) → Grant
  create_membership : Option (ℕ × ℕ × Flags) → Grant
  update_membership : Option ℕ → Option Flags → Grant
  revoke_membership : Option ℕ → Grant
  assign_device : Option (String × ℕ) → Grant
  transfer_device : Option String → Option ℕ → Grant
  bulk_assign : Option (List String × ℕ) → Grant
  unknown : Grant

-- `GlobalAdminUserCreationForm.save`; the password is not modelled.
unfoldable pub add_user : String → String → Exec Page
add_user name email db = pure redirected (record db {
  users =
      insert (record { username = name; email = email; is_superuser = false; is_staff = false })
        db.users;
})

-- `SiteCreateForm.save`
unfoldable pub add_site : String → String → Exec Page
add_site name description db = pure redirected (record db {
  sites =
      insert
        (record { name = name; description = description; is_active = true; created_at = db.now })
        db.sites;
})

abbrev pub is_active_at : Db → ℕ → Bool
is_active_at db s = is_active_site (get s db.sites)

-- `SiteMembershipCreateForm.is_valid`: the choices of its fields, and `clean`.
abbrev pub membership_valid : Db → ℕ → ℕ → Bool
membership_valid db u s =
    is_some (get u db.users)
    && is_active_at db s
    && not (exists (same_pair u s) db.memberships.rows)

-- `SiteMembershipCreateForm.save`: every permission counts as given.
unfoldable pub add_membership : ℕ → ℕ → Flags → Exec Page
unfolding save_new_membership
add_membership u s f = do
  valid ← gets (λ db. membership_valid db u s)
  if valid
      then (do
        save_new_membership (λ _. true)
            (record {
              member = u;
              site = s;
              role = f.role;
              permissions = flagged f false;
              joined_at = 0;
            })
        pure redirected)
      else pure rendered

abbrev pub with_flags : Flags → SiteMembership → SiteMembership
with_flags f m = record m { role = f.role; permissions = flagged f m.permissions.manage_devices }

abbrev pub with_key : ℕ → Option SiteMembership → Option (ℕ × SiteMembership)
with_key k none = none
with_key k (some m) = some (k, m)

-- `get_object_or_404(SiteMembership, pk=…)`
abbrev pub the_membership : Option ℕ → Db → Option (ℕ × SiteMembership)
the_membership none db = none
the_membership (some k) db = with_key k (get k db.memberships)

-- The membership's row is written from the form.
abbrev pub change_membership : ℕ → SiteMembership → Option Flags → Exec Page
change_membership k m none = pure rendered
change_membership k m (some f) = do
  modify (λ db. record db { memberships = put k (with_flags f m) db.memberships })
  pure redirected

unfoldable pub update_flags : Option ℕ → Option Flags → Exec Page
update_flags id form = do
  found ← gets (the_membership id)
  (k, m) ← need http_404 found
  change_membership k m form

unfoldable pub revoke : Option ℕ → Exec Page
revoke id = do
  found ← gets (the_membership id)
  (k, _) ← need http_404 found
  modify (λ db. record db { memberships = delete_where (λ j _. j == k) db.memberships })
  pure redirected

-- `save(update_fields=["site"])`, or `update(site=…)`, of the endpoints that the test selects.
abbrev pub place : (String → Endpoint → Bool) → ℕ → Exec Page
place p s = do
  modify (λ db. record db {
    endpoints = update_where p (λ e. record e { site = some s }) db.endpoints;
  })
  pure redirected

abbrev pub is_unassigned_in : Rows String Endpoint → String → Bool
is_unassigned_in rows ep = elim (find ep rows) [ none ↦ false | some e ↦ has_no_site e ]

-- `DeviceAssignmentForm`
unfoldable pub assign : String → ℕ → Exec Page
assign ep s = do
  valid ← gets (λ db. is_unassigned_in db.endpoints ep && is_active_at db s)
  if valid then place (λ k _. k == ep) s else pure rendered

-- `DeviceTransferForm`, for an endpoint that is there.
unfoldable pub transfer : String → Option ℕ → Exec Page
transfer ep none = pure rendered
transfer ep (some s) = do
  valid ← gets (λ db. is_active_at db s)
  if valid then place (λ k _. k == ep) s else pure rendered

abbrev pub known_endpoint : Option String → Db → Option String
known_endpoint none db = none
known_endpoint (some ep) db = if is_some (find ep db.endpoints) then some ep else none

abbrev pub all_unassigned : Rows String Endpoint → List String → Bool
all_unassigned rows [] = true
all_unassigned rows (ep ∷ eps) = is_unassigned_in rows ep && all_unassigned rows eps

abbrev pub is_nonempty : List String → Bool
is_nonempty [] = false
is_nonempty (ep ∷ eps) = true

-- `filter(pk__in=endpoint_ids, site__isnull=True)`
abbrev pub is_chosen : List String → String → Endpoint → Bool
is_chosen eps k e = any (λ ep. k == ep) eps && has_no_site e

-- `BulkDeviceAssignmentForm`: every endpoint must be a choice, and one at least is chosen.
unfoldable pub bulk : List String → ℕ → Exec Page
bulk eps s = do
  valid ← gets (λ db. is_nonempty eps && all_unassigned db.endpoints eps && is_active_at db s)
  if valid then place (is_chosen eps) s else pure rendered

unfoldable pub grant : Grant → Exec Page
unfolding add_user add_site add_membership update_flags revoke assign transfer bulk
grant (create_user none) = pure rendered
grant (create_user (some (name, email))) = add_user name email
grant (create_site none) = pure rendered
grant (create_site (some (name, description))) = add_site name description
grant (create_membership none) = pure rendered
grant (create_membership (some (u, s, f))) = add_membership u s f
grant (update_membership id form) = update_flags id form
grant (revoke_membership id) = revoke id
grant (assign_device none) = pure rendered
grant (assign_device (some (ep, s))) = assign ep s
grant (transfer_device id form) = do
  found ← gets (known_endpoint id)
  ep ← need http_404 found
  transfer ep form
grant (bulk_assign none) = pure rendered
grant (bulk_assign (some (eps, s))) = bulk eps s
grant unknown = pure forbidden

-- `permissions`; `none` is a GET.
unfoldable pub permissions_page : User → Option Grant → Exec Page
unfolding grant
permissions_page user none = pure (if user.is_superuser then rendered else forbidden)
permissions_page user (some g) = if user.is_superuser then grant g else pure forbidden
