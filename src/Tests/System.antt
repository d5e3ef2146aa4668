-- ===== src/Tests/System.antt =====
-- A run of the server: an operation is sent, the device deregisters meanwhile, the gateway fails.
use flownexus.Prelude.{ℕ, String, Bool, false, Option, none, some, [], ◌∷◌}
use flownexus.Prelude.Int.{pos}
use flownexus.Models.Rows.{EndpointOperation, queued}
use flownexus.Ingest.Registration.{unregistered}
use flownexus.Tasks.{mark_sending, begin_send, finish_send}
use flownexus.System.{System, Entry, registration, call}
use flownexus.System.Sound.{Sound}
use flownexus.System.History.{History}
use flownexus.Tests.Data.{deployment, operation}

abbrev no_float : String → Bool
no_float text = false

abbrev no_time : String → Option ℕ
no_time text = none

abbrev before : System
before = record { db = deployment; in_flight = [] }

abbrev sent : EndpointOperation
sent = mark_sending 30 (operation 1 queued 0)

abbrev during : System
during = record { db = (begin_send 1 deployment).1; in_flight = (1, sent) ∷ [] }

abbrev gone : Entry
gone = registration (some ("urn:imei:1", unregistered, pos 25))

abbrev meanwhile : System
meanwhile = record during { db = call no_float no_time gone during.db }

abbrev after : System
after = record { db = (finish_send 1 sent none meanwhile.db).1; in_flight = [] }
