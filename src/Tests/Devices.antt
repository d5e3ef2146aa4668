-- ===== src/Tests/Devices.antt =====
-- The device list at a concrete database.
use flownexus.Prelude.{◌≡◌, refl, String, Option, none, some, List, [], ◌∷◌, map, arith}
use flownexus.Text.{codes_le}
use flownexus.Models.Db.{Db}
use flownexus.Models.Device.{bare_resource, Value}
use flownexus.Access.Middleware.{SiteKey, site_context}
use flownexus.Access.Permissions.{has_site_permission, site_filtered_endpoints}
use flownexus.Frontend.Devices.{firmware_version, manufacturer, Device, detail_value, devices}
use flownexus.Frontend.Devices.Collected.{NewestOf}
use flownexus.Frontend.Devices.Newest.{detail_value-NewestOf}
use flownexus.Frontend.Devices.Isolation.{Listed, devices-Listed}
use flownexus.Tests.Data.{deployment, plain_user, north}

-- The device has reported two versions.
abbrev reported : Db
reported = record deployment {
  resources = record {
    rows =
        (1, record (bare_resource "urn:imei:1" 1) { str_value = some "v1" })
        ∷ (2, record (bare_resource "urn:imei:1" 1) { str_value = some "v2" })
        ∷ [];
    next_id = 3;
  };
}

newest_version :
    detail_value reported reported.endpoints "urn:imei:1" firmware_version ≡ some (Value.text "v2")
unfolding detail_value codes_le
newest_version = refl

no_manufacturer : detail_value reported reported.endpoints "urn:imei:1" manufacturer ≡ none
unfolding detail_value codes_le
no_manufacturer = refl

detail_value-NewestOf_example :
    NewestOf reported "urn:imei:1" firmware_version
      (detail_value reported reported.endpoints "urn:imei:1" firmware_version)
detail_value-NewestOf_example =
    detail_value-NewestOf reported reported.endpoints "urn:imei:1" firmware_version refl

abbrev names_of : Option (List Device × Option Device) → Option (List String × Option String)
names_of none = none
names_of (some (ds, none)) = some (map (λ d. d.name) ds, none)
names_of (some (ds, some d)) = some (map (λ d. d.name) ds, some d.name)

-- A device of another site cannot be selected.
own_device :
    names_of (devices reported 7 plain_user north (some "urn:imei:2"))
    ≡ some ("urn:imei:1" ∷ [], some "urn:imei:1")
unfolding devices has_site_permission site_filtered_endpoints codes_le
own_device = refl

devices-Listed_example :
    Listed reported 7 (some "urn:imei:2") (devices reported 7 plain_user north (some "urn:imei:2"))
unfolding site_context
devices-Listed_example =
    devices-Listed reported 7 plain_user none (some (SiteKey.id 1)) north refl (omega arith) refl
      (some "urn:imei:2")
