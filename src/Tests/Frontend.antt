-- ===== src/Tests/Frontend.antt =====
-- Pages at concrete requests.
use flownexus.Prelude.{
  ℕ, ◌≤◌, ◌≡◌, ◌⊎◌, refl, Bool, true, false, none, some, [], ◌∷◌, arith, String, if◌then◌else◌,
}
use flownexus.Table.{Rows, count, get}
use flownexus.Table.Search.{Elem}
use flownexus.Models.Rows.{
  Endpoint, User, Resource, admin, allows, can_perform_operations, can_view_overview, Permission,
  SiteMembership,
}
use flownexus.Models.Db.{Db}
use flownexus.Models.Exec.{ok}
use flownexus.Models.Membership.{same_pair, save_new_membership}
use flownexus.Models.Save.{Same, Inserted}
use flownexus.Models.Roles.{by_default, save_new_membership-allows}
use flownexus.Access.Middleware.{SiteKey, Context, site_context}
use flownexus.Access.Isolation.{IsPermitted}
use flownexus.Frontend.Page.{forbidden}
use flownexus.Frontend.Firmwares.{Post, firmware_page}
use flownexus.Frontend.Firmwares.Isolation.{firmware_page-IsPermitted}
use flownexus.Frontend.Dashboard.{chart, in_step, dashboard_of, hourly}
use flownexus.Frontend.Dashboard.Chart
use flownexus.Frontend.Dashboard.Chart.{total-chart}
use flownexus.Frontend.Dashboard.Versions
use flownexus.Models.Device.{bare_resource}
use flownexus.Frontend.Grants.{bulk_assign, revoke_membership, permissions_page}
use flownexus.Frontend.Grants.Unique.{OneEach, permissions_page-OneEach}
use flownexus.Frontend.Grants.Devices.{Places, permissions_page-Places}
use flownexus.Tests.Data.{deployment, plain_user, membership}

abbrev operator : SiteMembership
operator = record (membership 7 1 5) {
  permissions = record (membership 7 1 5).permissions {
    view_firmware = true;
    perform_operations = true;
  };
}

abbrev staffed : Db
staffed = record deployment {
  memberships = record { rows = (1, operator) ∷ (2, membership 8 2 6) ∷ []; next_id = 3 };
}

abbrev north : Context
north = record {
  site = some 1;
  site_membership = some operator;
  current_site_key = some (SiteKey.id 1);
  is_global_admin = false;
  available_sites = 1 ∷ [];
}

-- The user of the site North asks for an update of a device of the site East.
abbrev foreign : Post
foreign = record {
  upload_fw = false;
  start_update = true;
  delete_fw = false;
  has_version = false;
  has_endpoint = true;
  upload = none;
  update = some ("urn:imei:2", 1);
  firmware_id = none;
}

firmware_page-IsPermitted_example :
    Same staffed.updates (firmware_page 7 plain_user north (some foreign) staffed).1
    ⊎ ((ep : String) × (s : ℕ) × (firmware : ℕ) × IsPermitted staffed 7 can_perform_operations s
        × ((e : Endpoint) × Elem (ep, e) staffed.endpoints × (e.site ≡ some s))
        × Inserted staffed.updates ep firmware
            (firmware_page 7 plain_user north (some foreign) staffed).1)
unfolding site_context
firmware_page-IsPermitted_example =
    firmware_page-IsPermitted 7 plain_user none (some (SiteKey.id 1)) north (some foreign) staffed
      refl (omega arith) refl

abbrev root : User
root = record plain_user { is_superuser = true }

permissions_page-Places_example :
    ((root.is_superuser ≡ false)
      × (permissions_page root (some (bulk_assign (some ("urn:imei:1" ∷ [], 2)))) deployment
          ≡ (ok forbidden, deployment)))
    ⊎ ((root.is_superuser ≡ true)
        × Places deployment
            (permissions_page root (some (bulk_assign (some ("urn:imei:1" ∷ [], 2)))) deployment).1)
permissions_page-Places_example =
    permissions_page-Places root (some (bulk_assign (some ("urn:imei:1" ∷ [], 2)))) deployment

one_membership : (u s : ℕ) → count (same_pair u s) deployment.memberships.rows ≤ 1
one_membership u s = ground arith

permissions_page-OneEach_example :
    OneEach (permissions_page root (some (revoke_membership (some 1))) deployment).1.memberships
permissions_page-OneEach_example =
    permissions_page-OneEach root (some (revoke_membership (some 1))) deployment
      (omega arith, one_membership)

-- A site admin of the site East who may not see the overview.
abbrev joining : SiteMembership
joining = record (membership 7 2 0) {
  role = admin;
  permissions = record (membership 7 2 0).permissions { view_overview = false };
}

abbrev is_overview : Permission → Bool
is_overview can_view_overview = true
is_overview p = false

save_new_membership-allows_example :
    (stored : SiteMembership) × (get 3
        (save_new_membership is_overview joining deployment).1.memberships
      ≡ some stored)
    × (stored.member ≡ 7)
    × (stored.site ≡ 2)
    × ((p : Permission)
        → allows stored.permissions p
          ≡ (if is_overview p then allows joining.permissions p else by_default admin p))
save_new_membership-allows_example =
    save_new_membership-allows is_overview joining deployment (omega arith) refl

abbrev readings : Rows ℕ Resource
readings =
    (1, record (bare_resource "urn:imei:1" 1) { timestamp_created = 5; str_value = some "v1" })
    ∷ (2, record (bare_resource "urn:imei:1" 1) { timestamp_created = 10; str_value = some "v2" })
    ∷ (3, record (bare_resource "urn:imei:2" 1) { timestamp_created = 11; str_value = some "v1" })
    ∷ []

-- The reading at 10 falls into the second step only, and the device of another site is not counted.
chart_counts :
    chart ((("urn:imei:1", record { registered = true; site = some 1 })) ∷ []) readings 5 2 5
    ≡ (5, 1) ∷ (10, 1) ∷ []
unfolding chart
chart_counts = refl

total-chart_example :
    Chart.total (chart deployment.endpoints readings 5 2 5)
    ≡ count (in_step deployment.endpoints 5 15) readings
total-chart_example = total-chart deployment.endpoints readings 5 2 5

abbrev reporting : Db
reporting = record deployment { resources = record { rows = readings; next_id = 4 } }

-- Only the latest report of a device counts.
distribution :
    (dashboard_of reporting deployment.endpoints hourly).firmware_distribution
    ≡ (some "v1", 1) ∷ (some "v2", 1) ∷ []
unfolding dashboard_of
distribution = refl
