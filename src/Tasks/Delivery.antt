-- ===== src/Tasks/Delivery.antt =====
-- `send_operation`: retries are bounded, and a failure reaches the firmware update.
use flownexus.Prelude.{
  ℕ, ◌+◌, ◌≤◌, ◌<◌, ◌≡◌, false, Option, List, [], ◌∷◌, nat_key, if◌then◌else◌, ◌⊎◌,
}
use flownexus.Prelude.Int.{int_key}
use flownexus.Models.Rows.{queued, EndpointOperation}
use flownexus.Fota.{is_pending}
use flownexus.Tasks.{Response, mark_sending, after_response, is_queued, max_attempts}

-- One attempt of a queued operation: it is marked as sent at a time, and gets an answer.
abbrev pub attempt : ℕ × Option Response → EndpointOperation → EndpointOperation
attempt (now, response) o = after_response response (mark_sending now o)

-- Attempts one after another, as long as the operation is queued.
unfoldable pub attempts : List (ℕ × Option Response) → EndpointOperation → EndpointOperation
unfolding after_response mark_sending
attempts [] o = o
attempts (a ∷ rest) o =
    let later = attempts rest (attempt a o) in if is_queued o.status then later else o

-- What an answer makes of an operation that had been sent `c` times.
abbrev Settles : ℕ → EndpointOperation → Type 0
Settles c o =
    ((is_pending o.status ≡ false) × (o.transmit_counter ≤ c + 1))
    ⊎ ((o.status ≡ queued) × (o.transmit_counter ≡ c + 1) × (c + 1 < max_attempts))
