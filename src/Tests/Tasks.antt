-- ===== src/Tests/Tasks.antt =====
-- Delivery of operations at concrete answers.
use flownexus.Prelude.{◌≡◌, ◌≢◌, refl, none, some, [], ◌∷◌, arith, nat_key}
use flownexus.Prelude.Int.{pos}
use flownexus.Table.{get}
use flownexus.Models.Rows.{queued, failed, FirmwareUpdate, result_default}
use flownexus.Models.Db.{Db}
use flownexus.Tasks.{Response, after_response, finish_send, device_rejection}
use flownexus.Tasks.Queue.{finish_send-failure}
use flownexus.Tests.Data.{deployment, operation, update_of}

abbrev unavailable : Response
unavailable = record { status_code = 503; code = none }

abbrev rejection : Response
rejection = record { status_code = 502; code = some "4.04" }

-- While operation 1 waited for the gateway it was aborted; the answer puts it back into the queue.
abbrev aborted_meanwhile : Db
aborted_meanwhile = record deployment {
  operations = record { rows = (1, operation 1 failed 0) ∷ []; next_id = 2 };
}

finish_send-failure_example :
    (v : FirmwareUpdate) × (get 1
        (finish_send 1 (operation 1 queued 0) (some rejection) deployment).1.updates
      ≡ some v)
    × (v.result ≢ result_default)
unfolding after_response device_rejection
finish_send-failure_example =
    finish_send-failure 1 1 (operation 1 queued 0) (some rejection) (update_of 10 (pos 1) (some 1))
      deployment (omega arith) refl refl
