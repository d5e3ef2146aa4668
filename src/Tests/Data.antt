-- ===== src/Tests/Data.antt =====
-- A small deployment: two sites, a member of each, and one endpoint with two active updates.
use flownexus.Prelude.{ℕ, String, Bool, true, false, Option, none, some, [], ◌∷◌}
use flownexus.Prelude.Int.{ℤ, pos}
use flownexus.Models.Rows.{
  User, Site, SiteMembership, user, Permissions, DataType, string, integer, none_type, ResourceType,
  Status, queued, EndpointOperation, FirmwareUpdate,
}
use flownexus.Models.Db.{Db, new_db}
use flownexus.Models.Device.{bare_resource}
use flownexus.Access.Middleware.{SiteKey, Context}

abbrev pub plain_user : User
plain_user = record { username = "ann"; email = ""; is_superuser = false; is_staff = false }

abbrev pub viewer : Permissions
viewer = record {
  view_overview = true;
  view_firmware = false;
  view_data_analysis = true;
  manage_firmware = false;
  perform_operations = false;
  manage_devices = false;
}

abbrev site_named : String → Bool → Site
site_named name active = record {
  name = name;
  description = "";
  is_active = active;
  created_at = 0;
}

abbrev pub membership : ℕ → ℕ → ℕ → SiteMembership
membership u s joined = record {
  member = u;
  site = s;
  role = user;
  permissions = viewer;
  joined_at = joined;
}

-- The context of the member of the first site.
abbrev pub north : Context
north = record {
  site = some 1;
  site_membership = some (membership 7 1 5);
  current_site_key = some (SiteKey.id 1);
  is_global_admin = false;
  available_sites = 1 ∷ [];
}

abbrev type_of : ℤ → ℤ → DataType → ResourceType
type_of obj res t = record { object_id = obj; resource_id = res; name = ""; data_type = t }

abbrev pub operation : ℕ → Status → ℕ → EndpointOperation
operation resource status sent = record {
  resource = resource;
  operation_type = "";
  instance_id = 0;
  status = status;
  transmit_counter = sent;
  timestamp_created = 0;
  last_attempt = none;
}

abbrev pub update_of : ℕ → ℤ → Option ℕ → FirmwareUpdate
update_of created state uri = record {
  endpoint = "urn:imei:1";
  firmware = 1;
  state = state;
  result = pos 0;
  timestamp_created = created;
  timestamp_updated = created;
  send_uri_operation = uri;
  execute_operation = none;
}

abbrev pub deployment : Db
deployment = record new_db {
  sites = record {
    rows = (1, site_named "North" true) ∷ (2, site_named "East" true) ∷ [];
    next_id = 3;
  };
  memberships = record { rows = (1, membership 7 1 5) ∷ (2, membership 8 2 6) ∷ []; next_id = 3 };
  endpoints =
      ("urn:imei:1", record { registered = true; site = some 1 })
      ∷ ("urn:imei:2", record { registered = false; site = some 2 })
      ∷ [];
  resource_types = record {
    rows =
        (1, type_of (pos 3) (pos 3) string)
        ∷ (2, type_of (pos 5) (pos 1) string)
        ∷ (3, type_of (pos 5) (pos 2) none_type)
        ∷ (4, type_of (pos 5) (pos 3) integer)
        ∷ (5, type_of (pos 5) (pos 5) integer)
        ∷ (6, type_of (pos 10240) (pos 0) integer)
        ∷ (7, type_of (pos 10240) (pos 1) integer)
        ∷ (8, type_of (pos 10240) (pos 2) integer)
        ∷ [];
    next_id = 9;
  };
  resources = record {
    rows = (1, bare_resource "urn:imei:1" 2) ∷ (2, bare_resource "urn:imei:1" 2) ∷ [];
    next_id = 3;
  };
  operations = record {
    rows = (1, operation 1 queued 0) ∷ (2, operation 2 queued 2) ∷ [];
    next_id = 3;
  };
  firmwares = record {
    rows =
        (
          1,
          record {
            version = "v1.0.1_rc1";
            created_at = 0;
            binary = some (record { url = "/binaries/v1.0.1_rc1.bin"; size = 4096 });
            is_deleted = false;
          },
        )
        ∷ [];
    next_id = 2;
  };
  updates = record {
    rows = (1, update_of 10 (pos 1) (some 1)) ∷ (2, update_of 20 (pos 3) (some 2)) ∷ [];
    next_id = 3;
  };
  now = 30;
}
