-- ===== src/Commands/Sound.antt =====
-- The commands keep the invariant of the server, whatever they are given and however they end.
use flownexus.Prelude.{
  ℕ, zero, suc, ◌≡◌, refl, String, Bool, true, false, Option, none, some, List, [], ◌∷◌, ◌==◌,
  nat_key,
}
use flownexus.Table.{Table, first}
use flownexus.Table.Search.{Elem-first, get-Elem}
use flownexus.Table.Upsert.{none_exists}
use flownexus.Models.Rows.{Role, Permissions, ResourceType, SiteMembership}
use flownexus.Models.Db.{Db}
use flownexus.Models.Exec.{atomic}
use flownexus.Models.Keeps.{Keeps, keeps_rules}
use flownexus.Models.Membership.{same_pair}
use flownexus.Frontend.Grants.Unique.{OneEach, insert-OneEach, put-OneEach, delete-OneEach}
use flownexus.System.Calls.{Keeps-atomic}
use flownexus.System.Sound.{Sound}
use flownexus.Commands.{
  save_row, update_or_create, load_type, save_type, load_initial_resource_types,
}
use flownexus.Commands.Stored.{update_or_create-IsValid}
use flownexus.Commands.Members.{
  SiteConfig, MembershipConfig, UserConfig, Config, filled, mapping, Part, missing, malformed,
  given, validate_config, SitesMap, store_site, load_sites, store_user, store_membership,
  load_membership, load_memberships, delete_memberships, load_user, load_users,
}
use flownexus.Commands.Memberships.{store_membership_lem, regrant, fresh, regranted}
use flownexus.Commands.Scenario.{
  assign_device, place_device, assign_all, assign_devices_to_sites, apply_config, load_scenario,
}

regrant-OneEach :
    (u s : ℕ) (g : Role × Permissions) (now : ℕ) (t : Table SiteMembership)
    → OneEach t
    → OneEach (regrant u s g now t)
unfolding update_or_create
regrant-OneEach u s g now t h = go (first (same_pair u s) t.rows) refl
  where
    go :
        (found : Option (ℕ × SiteMembership))
        → first (same_pair u s) t.rows ≡ found
        → OneEach (save_row found (fresh u s g now) (regranted g) t).1
    go none e = insert-OneEach (fresh u s g now) t (none_exists (same_pair u s) t.rows e) h
    go (some (k, m)) e =
        let (i, _) = Elem-first (same_pair u s) (k, m) t.rows e in
        put-OneEach k m (regranted g m) t (get-Elem (k, m) t h.0 i) refl refl h

store_membership-Sound : (u s : ℕ) (g : Role × Permissions) → Keeps Sound (store_membership u s g)
store_membership-Sound u s g = record {
  at = λ db (one, keyed).
      rw (store_membership_lem u s g db) (regrant-OneEach u s g db.now db.memberships one, keyed);
}

delete_memberships-Sound : (p : Db → ℕ → SiteMembership → Bool) → Keeps Sound (delete_memberships p)
delete_memberships-Sound p = record {
  at = λ db (one, keyed). (delete-OneEach (p db) db.memberships one, keyed);
}

store_site-Sound : (name text : String) → Keeps Sound (store_site name text)
unfolding store_site
store_site-Sound name text = record {
  at = λ db (one, (u, s, t, r, e, l, o, f, v)).
      (one, (u, update_or_create-IsValid _ _ _ db.sites s, t, r, e, l, o, f, v));
}

store_user-Sound : (name : String) (flag : Bool) → Keeps Sound (store_user name flag)
unfolding store_user
store_user-Sound name flag = record {
  at = λ db (one, (u, s, t, r, e, l, o, f, v)).
      (one, (update_or_create-IsValid _ _ _ db.users u, s, t, r, e, l, o, f, v));
}

save_type-Sound : (entry : ResourceType) → Keeps Sound (save_type entry)
unfolding load_type
save_type-Sound entry = record {
  at = λ db (one, (u, s, t, r, e, l, o, f, v)).
      (one, (u, s, update_or_create-IsValid _ _ _ db.resource_types t, r, e, l, o, f, v));
}

ruleset commands = (
  keeps_rules, store_membership-Sound, delete_memberships-Sound, store_site-Sound, store_user-Sound,
  save_type-Sound,
)

load_sites-Sound : (cs : List SiteConfig) (known : SitesMap) → Keeps Sound (load_sites cs known)
unfolding load_sites
load_sites-Sound [] known = search commands
load_sites-Sound (c ∷ cs) known = search (commands, load_sites-Sound cs) depth 9

load_membership-Sound :
    (u : ℕ) (known : SitesMap) (c : MembershipConfig) → Keeps Sound (load_membership u known c)
unfolding load_membership
load_membership-Sound u known c = search commands depth 9

load_memberships-Sound :
    (u : ℕ) (superuser : Bool) (known : SitesMap) (cs : List MembershipConfig)
    → Keeps Sound (load_memberships u superuser known cs)
unfolding load_memberships
load_memberships-Sound u true known cs = delete_memberships-Sound (λ db _ m. m.member == u)
load_memberships-Sound u false known cs = search (commands, load_membership-Sound) depth 9

load_user-Sound : (known : SitesMap) (c : UserConfig) → Keeps Sound (load_user known c)
unfolding load_user
load_user-Sound known c = search (commands, load_memberships-Sound) depth 9

load_users-Sound : (known : SitesMap) (cs : List UserConfig) → Keeps Sound (load_users known cs)
unfolding load_users
load_users-Sound known cs = search (commands, load_user-Sound) depth 9

assign_device-Sound : (site id : ℕ) → Keeps Sound (assign_device site id)
unfolding assign_device
assign_device-Sound site id = record { at = λ db h. h }

place_device-Sound : (id : ℕ) → Keeps Sound (place_device id)
unfolding place_device
place_device-Sound id = record { at = λ db h. h }

assign_all-Sound : (site : Option ℕ) (ids : List ℕ) → Keeps Sound (assign_all site ids)
assign_all-Sound none ids = record { at = λ db h. h }
assign_all-Sound (some site) ids = search (commands, assign_device-Sound) depth 9

assign-Sound :
    (assignments : List (String × List ℕ)) (known : SitesMap) (n : ℕ)
    → Keeps Sound (assign_devices_to_sites assignments known n)
unfolding assign_devices_to_sites
assign-Sound assignments known zero = record { at = λ db h. h }
assign-Sound assignments known (suc n) =
    search (commands, assign_all-Sound, place_device-Sound) depth 12

apply_config-Sound :
    (sites : List SiteConfig) (users : List UserConfig) (n : ℕ)
    (assignments : List (String × List ℕ))
    → Keeps Sound (apply_config (sites, users, n) assignments)
unfolding apply_config
apply_config-Sound sites users n assignments =
    search (commands, load_sites-Sound, load_users-Sound, assign-Sound) depth 9

filled-Sound : {A : Type 0} (part : Part (List A)) → Keeps Sound (filled part)
filled-Sound missing = record { at = λ db h. h }
filled-Sound malformed = record { at = λ db h. h }
filled-Sound (given []) = record { at = λ db h. h }
filled-Sound (given (x ∷ xs)) = record { at = λ db h. h }

mapping-Sound : (part : Part ℕ) → Keeps Sound (mapping part)
mapping-Sound missing = record { at = λ db h. h }
mapping-Sound malformed = record { at = λ db h. h }
mapping-Sound (given n) = record { at = λ db h. h }

validate_config-Sound : (c : Config) → Keeps Sound (validate_config c)
unfolding validate_config
validate_config-Sound c = search (commands, filled-Sound, mapping-Sound) depth 9

apply-Sound :
    (parts : List SiteConfig × List UserConfig × ℕ) (assignments : List (String × List ℕ))
    → Keeps Sound (atomic (apply_config parts assignments))
apply-Sound (sites, users, n) assignments =
    Keeps-atomic (apply_config (sites, users, n) assignments)
      (apply_config-Sound sites users n assignments)

scenario-Sound : (c : Config) → Keeps Sound (load_scenario c)
unfolding load_scenario
scenario-Sound c = search (commands, validate_config-Sound, apply-Sound) depth 9

types-Sound : (es : List ResourceType) → Keeps Sound (load_initial_resource_types es)
unfolding load_initial_resource_types
types-Sound es = search commands depth 9

-- Whatever configuration or fixture they are given, and however they end, `load_scenario` and
-- `load_initial_resource_types` leave unique keys, and at most one membership of a user and a site,
-- where that was so before.
pub commands-Sound :
    (c : Config) (es : List ResourceType) (db : Db)
    → Sound db
    → Sound (load_scenario c db).1 × Sound (load_initial_resource_types es db).1
commands-Sound c es db h = ((scenario-Sound c).at db h, (types-Sound es).at db h)
