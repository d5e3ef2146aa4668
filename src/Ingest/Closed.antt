-- ===== src/Ingest/Closed.antt =====
-- The writes that the ingest of device data is made of, as an interface: a predicate that each of them
-- keeps is kept by every serializer.
use flownexus.Prelude.{ℕ, String, Option}
use flownexus.Prelude.Int.{ℤ}
use flownexus.Models.Rows.{Resource, EndpointOperation, FirmwareUpdate, Task}
use flownexus.Models.Db.{Db}
use flownexus.Models.Exec.{delay}
use flownexus.Models.Keeps.{Keeps}
use flownexus.Models.Device.{create_resource, create_operation}
use flownexus.Models.Update.{save_update}
use flownexus.Fota.{save_operation}
use flownexus.Ingest.Resource.{get_or_create_endpoint, create_event, link_event}

-- What `handle_resource` and `handle_fota` write, other than the link to an event.
pub record Writes (P : Db → Type 0) : Type 0 where
  pub resource : (ts : Option ℕ) (r : Resource) → Keeps P (create_resource ts r)
  pub operation : (r : ℕ) → Keeps P (create_operation r)
  pub saved_operation : (k : ℕ) (o : EndpointOperation) → Keeps P (save_operation k o)
  pub saved_update : (k : ℕ) (u : FirmwareUpdate) → Keeps P (save_update k u)
  pub task : (t : Task) → Keeps P (delay t)

pub record Closed (P : Db → Type 0) : Type 0 where
  pub writes : Writes P
  pub link : (e : Option ℕ) (r : ℕ) → Keeps P (link_event e r)
  pub endpoint : (ep : String) → Keeps P (get_or_create_endpoint ep)
  pub event : (ep : String) (t : ℤ) → Keeps P (create_event ep t)
