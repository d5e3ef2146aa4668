-- ===== src/Commands/Scenario.antt =====
-- `load_scenario`: the sites and users of a parsed configuration, and placeholder endpoints.
use Prim.Native.String
use flownexus.Prelude.{
  ℕ, zero, suc, String, Bool, false, ◌||◌, not, Option, none, some, List, [], ◌∷◌, ◌++◌, any, ◌==◌,
  text_key, nat_key,
}
use flownexus.Table.{Rows, find, write}
use flownexus.Models.Rows.{Endpoint}
use flownexus.Models.Exec.{Action, modify, done, for_each, when, atomic, ◌>>=◌, ◌>>◌}
use flownexus.Text.Decimal.{decimal_text}
use flownexus.Commands.Members.{
  SiteConfig, UserConfig, Config, validate_config, SitesMap, load_sites, load_users,
}

-- `f"urn:imei:{device_id}"`
abbrev pub urn : ℕ → String
urn id = String.◌++◌ "urn:imei:" (decimal_text id)

abbrev pub place :
    Option Endpoint → String → Option ℕ → Option ℕ → Rows String Endpoint → Rows String Endpoint
place none ep site moved rows = rows ++ (ep, record { registered = false; site = site }) ∷ []
place (some e) ep site none rows = rows
place (some e) ep site (some s) rows = write ep (record e { site = some s }) rows

-- `get_or_create` of an endpoint that is at the site.
unfoldable pub assign_device : ℕ → ℕ → Action
assign_device site id = modify (λ db. record db {
  endpoints = place (find (urn id) db.endpoints) (urn id) (some site) (some site) db.endpoints;
})

-- `get_or_create` of an endpoint that is at no site.
unfoldable pub place_device : ℕ → Action
place_device id = modify (λ db. record db {
  endpoints = place (find (urn id) db.endpoints) (urn id) none none db.endpoints;
})

abbrev pub assign_all : Option ℕ → List ℕ → Action
assign_all none ids = done
assign_all (some site) ids = for_each (assign_device site) ids

abbrev pub assigned : ℕ → List (String × List ℕ) → Bool
assigned id [] = false
assigned id ((_, ids) ∷ rest) = any (λ j. j == id) ids || assigned id rest

-- `range(1, total + 1)`, from the last one that has been reached.
abbrev pub up_to : ℕ → List ℕ
up_to zero = []
up_to (suc n) = up_to n ++ suc n ∷ []

unfoldable pub assign_devices_to_sites : List (String × List ℕ) → SitesMap → ℕ → Action
unfolding assign_device place_device
assign_devices_to_sites assignments known zero = done
assign_devices_to_sites assignments known (suc n) = do
  for_each (λ (a : String × List ℕ). assign_all (find a.0 known) a.1) assignments
  for_each (λ id. when (not (assigned id assignments)) (place_device id)) (up_to (suc n))

unfoldable pub apply_config :
    List SiteConfig × List UserConfig × ℕ → List (String × List ℕ) → Action
unfolding load_sites load_users assign_devices_to_sites
apply_config (sites, users, count) assignments = do
  known ← load_sites sites []
  load_users known users
  assign_devices_to_sites assignments known count

-- `handle`, from the parsed configuration on.
unfoldable pub load_scenario : Config → Action
unfolding validate_config apply_config
load_scenario c = do parts ← validate_config c; atomic (apply_config parts c.device_assignments)
