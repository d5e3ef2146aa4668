-- ===== src/Commands/Placing.antt =====
-- Placing devices leaves users, memberships and sites as they are.
use flownexus.Prelude.{ℕ, zero, suc, ◌≡◌, String, Option, none, some, List, nat_key, text_key}
use flownexus.Models.Db.{Db}
use flownexus.Models.Keeps.{Keeps, keeps_rules}
use flownexus.Commands.Members.{SitesMap}
use flownexus.Commands.Scenario.{assign_device, place_device, assign_all, assign_devices_to_sites}

abbrev pub SameUsers : Db → Db → Type 0
SameUsers before db =
    (db.users ≡ before.users) × (db.memberships ≡ before.memberships) × (db.sites ≡ before.sites)

module _ (before : Db) where
  assign_device-Same : (site id : ℕ) → Keeps (SameUsers before) (assign_device site id)
  unfolding assign_device
  assign_device-Same site id = record { at = λ db h. h }

  place_device-Same : (id : ℕ) → Keeps (SameUsers before) (place_device id)
  unfolding place_device
  place_device-Same id = record { at = λ db h. h }

  assign_all-Same :
      (site : Option ℕ) (ids : List ℕ) → Keeps (SameUsers before) (assign_all site ids)
  assign_all-Same none ids = record { at = λ db h. h }
  assign_all-Same (some site) ids = search (keeps_rules, assign_device-Same) depth 8

  pub assign-Same :
      (assignments : List (String × List ℕ)) (known : SitesMap) (n : ℕ)
      → Keeps (SameUsers before) (assign_devices_to_sites assignments known n)
  unfolding assign_devices_to_sites
  assign-Same assignments known zero = record { at = λ db h. h }
  assign-Same assignments known (suc n) =
      search (keeps_rules, assign_all-Same, place_device-Same) depth 12
