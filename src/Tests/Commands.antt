-- ===== src/Tests/Commands.antt =====
-- The loaders on small configurations.
use flownexus.Prelude.{
  ℕ, ◌≡◌, ◌≤◌, refl, String, Bool, true, false, Option, none, some, List, [], ◌∷◌, nat_key,
  text_key, arith,
}
use flownexus.Prelude.Int.{ℤ, pos}
use flownexus.Table.{count}
use flownexus.Models.Rows.{
  admin, Permission, can_manage_devices, ResourceType, DataType, integer, float, string, Site,
}
use flownexus.Models.Db.{Db, new_db}
use flownexus.Models.Exec.{ok, err, command_error}
use flownexus.Models.Membership.{same_pair}
use flownexus.System.Sound.{Sound}
use flownexus.Text.Decimal.{decimal_text}
use flownexus.Commands.{load_initial_resource_types}
use flownexus.Commands.Catalogue.{type_at, listed, load_initial_resource_types-listed}
use flownexus.Commands.Members.{SiteConfig, UserConfig, given, missing, Config}
use flownexus.Commands.Scenario.{load_scenario}
use flownexus.Commands.Sound.{commands-Sound}

abbrev entry : String → DataType → ResourceType
entry name t = record { object_id = pos 3303; resource_id = pos 5700; name = name; data_type = t }

-- A type that is there already, and a fixture that lists its path twice.
abbrev typed_db : Db
typed_db = record new_db {
  resource_types = record { rows = (1, entry "old" string) ∷ []; next_id = 2 };
}

abbrev fixture : List ResourceType
fixture = entry "temperature" integer ∷ entry "temperature" float ∷ []

load_initial_resource_types-listed_example :
    ((load_initial_resource_types fixture typed_db).0 ≡ ok 2)
    × ((obj res : ℤ)
        → type_at obj res (load_initial_resource_types fixture typed_db).1.resource_types
          ≡ listed fixture obj res (type_at obj res typed_db.resource_types))
    × ((obj res : ℤ)
        → type_at obj res
            (load_initial_resource_types fixture
              (load_initial_resource_types fixture typed_db).1).1.resource_types
          ≡ type_at obj res (load_initial_resource_types fixture typed_db).1.resource_types)
load_initial_resource_types-listed_example =
    load_initial_resource_types-listed fixture typed_db (omega arith, omega arith)

abbrev site_config : String → SiteConfig
site_config name = record { name = some name; description = none }

abbrev north_site : Site
north_site = record { name = "North"; description = "old"; is_active = false; created_at = 0 }

abbrev one_site : Db
one_site = record new_db { sites = record { rows = (1, north_site) ∷ []; next_id = 2 } }

abbrev two_sites : List SiteConfig
two_sites = site_config "South" ∷ site_config "North" ∷ []

abbrev says : Permission → Option Bool
says can_manage_devices = some true
says _ = none

abbrev operator : UserConfig
operator = record {
  username = some "ann";
  password = some "secret";
  is_superuser = false;
  sites = record { site = some "North"; role = some admin; permissions = says } ∷ [];
}

abbrev scenario : Config
scenario = record {
  sites = given two_sites;
  users = given (operator ∷ []);
  devices = given 2;
  device_assignments = ("South", 2 ∷ []) ∷ ("West", 1 ∷ []) ∷ [];
}

abbrev after : Db
unfolding load_scenario
after = (load_scenario scenario one_site).1

no_memberships : (u s : ℕ) → count (same_pair u s) one_site.memberships.rows ≤ 1
no_memberships u s = omega arith

commands-Sound_example :
    Sound (load_scenario scenario one_site).1
    × Sound (load_initial_resource_types fixture one_site).1
commands-Sound_example = commands-Sound scenario fixture one_site (
  (omega arith, no_memberships),
  (
    omega arith,
    (omega arith, omega arith),
    omega arith,
    omega arith,
    omega arith,
    omega arith,
    omega arith,
    omega arith,
    omega arith,
  ),
)

-- A device that an unknown site claims counts as assigned, and gets no endpoint.
unclaimed :
    (load_scenario scenario one_site).1.endpoints
    ≡ ("urn:imei:2", record { registered = false; site = some 2 }) ∷ []
unfolding load_scenario decimal_text
unclaimed = refl

-- A user of an unknown site is refused, and nothing is written.
refused :
    load_scenario (record scenario { sites = given (site_config "South" ∷ []) }) one_site
    ≡ (err command_error, one_site)
unfolding load_scenario
refused = refl

no_devices :
    load_scenario (record scenario { devices = missing }) one_site ≡ (err command_error, one_site)
unfolding load_scenario
no_devices = refl
