-- ===== src/System.antt =====
-- The server as a whole: requests, pages, forms of the admin site and tasks that run on one database, in any order. Sending an
-- operation is two steps, between which any other step may come.
pub mod Calls
pub mod Pages
pub mod Sound
pub mod Runs
pub mod Invariant
pub mod History
use flownexus.Prelude.{ℕ, ◌≡◌, ◌≤◌, String, Bool, Option, some, List, [], ◌∷◌, ◌++◌}
use flownexus.Prelude.Int.{ℤ}
use flownexus.Models.Rows.{User, EndpointOperation, File, Task}
use flownexus.Models.Db.{Db}
use flownexus.Models.Exec.{ok}
use flownexus.Tasks.{
  Response, Request, DeviceAnswer, begin_send, finish_send, process_pending, read_device,
}
use flownexus.Ingest.Resource.{ResourceData}
use flownexus.Ingest.Serializers.{ObjectData, Nodes}
use flownexus.Api.{
  EventData, OperationData, post_registration, post_single, post_composite, post_timestamped,
  post_firmware, post_operation,
}
use flownexus.Access.Middleware.{Context}
use flownexus.Frontend.Firmwares.{Post, firmware_page}
use flownexus.Frontend.Grants.{Grant, permissions_page}
use flownexus.Admin.{add_operation, change_operation, add_update, change_update}

-- What may be called from outside, or by a worker of the queue.
pub data Entry : Type 0 where
  registration : Option EventData → Entry
  single : Option (String × ℤ × ResourceData) → Entry
  composite : Option (String × List ObjectData) → Entry
  timestamped : Option (String × List (List Nodes)) → Entry
  firmware : String → Option (String × File) → Entry
  operation : String → Option OperationData → Entry
  firmwares : ℕ → User → Context → Option Post → Entry
  permissions : User → Option Grant → Entry
  pending : String → Entry
  device : String → DeviceAnswer → Entry
  operation_added : ℕ → ℕ → Entry
  operation_changed : ℕ → ℕ → Entry
  update_added : String → ℕ → Entry
  update_changed : ℕ → String → ℕ → Entry

-- The database, and the operations whose request is under way, as they stand in memory.
pub record System : Type 0 where
  pub db : Db
  pub in_flight : List (ℕ × EndpointOperation)

module _ (is_float : String → Bool) (parse_time : String → Option ℕ) where
  -- The database after a call, whether it returned or raised.
  unfoldable pub call : Entry → Db → Db
  call (registration body) db = (post_registration body db).1
  call (single body) db = (post_single is_float body db).1
  call (composite body) db = (post_composite is_float body db).1
  call (timestamped body) db = (post_timestamped is_float parse_time body db).1
  call (firmware ep body) db = (post_firmware ep body db).1
  call (operation ep body) db = (post_operation ep body db).1
  call (firmwares u user c post) db = (firmware_page u user c post db).1
  call (permissions user g) db = (permissions_page user g db).1
  call (pending ep) db = (process_pending ep db).1
  call (device ep answer) db = (read_device is_float ep answer db).1
  call (operation_added resource instance_id) db = (add_operation resource instance_id db).1
  call (operation_changed k instance_id) db = (change_operation k instance_id db).1
  call (update_added ep fw) db = (add_update ep fw db).1
  call (update_changed k ep fw) db = (change_update k ep fw db).1

  -- One step: a call, the two halves of a send, the broker hands out a task, or time passes.
  pub data Step (s : System) : System → Type 0 where
    called : (e : Entry) → Step s (record s { db = call e s.db })
    begun :
        (k : ℕ) (request : Request) (o : EndpointOperation)
        → (begin_send k s.db).0 ≡ ok (some (request, o))
        → Step s (record { db = (begin_send k s.db).1; in_flight = (k, o) ∷ s.in_flight })
    finished :
        (k : ℕ) (o : EndpointOperation) (response : Option Response)
        (before after : List (ℕ × EndpointOperation))
        → s.in_flight ≡ before ++ (k, o) ∷ after
        → Step s (record { db = (finish_send k o response s.db).1; in_flight = before ++ after })
    handed_out : (tasks : List Task) → Step s (record s { db = record s.db { tasks = tasks } })
    passed : (now : ℕ) → s.db.now ≤ now → Step s (record s { db = record s.db { now = now } })

  -- What can come about from `s`.
  pub data Reach (s : System) : System → Type 0 where
    here : Reach s s
    later : (t t' : System) → Reach s t → Step t t' → Reach s t'
