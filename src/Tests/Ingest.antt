-- ===== src/Tests/Ingest.antt =====
-- Registration events, stored values and API requests at concrete inputs.
use flownexus.Prelude.{
  ℕ, ◌≡◌, ◌⊎◌, refl, String, Bool, false, Option, List, none, some, [], ◌∷◌, arith,
}
use flownexus.Prelude.Int.{ℤ, pos}
use flownexus.Models.Rows.{ResourceType, integer, string, queued}
use flownexus.Models.Exec.{ok}
use flownexus.Models.Gives.{Ends}
use flownexus.Models.Device.{find_type, bare_resource, value_field, int_value}
use flownexus.Ingest.Resource.{typed_row, ResourceData, single_resource}
use flownexus.Ingest.Serializers.{ObjectData, Nodes, create_composite, create_timestamped}
use flownexus.Api.Frame.{Framed, gateway_posts-Framed}
use flownexus.Ingest.Registration.{
  RegistrationEvent, registered, unregistered, updated, create_registration, latest_event,
}
use flownexus.Ingest.Order.{Told, NotOlder, step}
use flownexus.Ingest.Refines.{view, create_registration-step}
use flownexus.Ingest.OneEvent.{OneEvent, create_timestamped-OneEvent}
use flownexus.Ingest.Logged.{Logged, LoggedUpTo, create_composite-Ends}
use flownexus.Ingest.Newest.{HasTypes, create_all, create_all-newest}
use flownexus.Ingest.Stored.{read_row, read_as, typed_row-get_value}
use flownexus.Api.{
  bad_request, post_single, post_composite, post_timestamped, OperationData, post_operation,
}
use flownexus.Api.Operations.{Stored, Refused, post_operation_stores}
use flownexus.Tests.Data.{deployment}

deployment-HasTypes : HasTypes deployment
unfolding find_type
deployment-HasTypes registered = refl
deployment-HasTypes unregistered = refl
deployment-HasTypes updated = refl

-- The deregistration arrives after a newer registration.
abbrev late : RegistrationEvent × ℤ
late = (unregistered, pos 10)

create_all-newest_example :
    ((create_all "urn:imei:1" ((registered, pos 20) ∷ late ∷ []) deployment).0 ≡ ok tt)
    × ((t : ℤ) × (flag : Bool) × (view "urn:imei:1"
            (create_all "urn:imei:1" ((registered, pos 20) ∷ late ∷ []) deployment).1
          ≡ (some t, flag))
        × Told t flag ((registered, pos 20) ∷ late ∷ [])
        × NotOlder t ((registered, pos 20) ∷ late ∷ []))
unfolding latest_event
create_all-newest_example =
    create_all-newest "urn:imei:1" (registered, pos 20) (late ∷ []) deployment (omega arith)
      deployment-HasTypes refl

create_registration-step_example :
    ((create_registration "urn:imei:1" unregistered (pos 10) deployment).0 ≡ ok tt)
    × ((view "urn:imei:1" (create_registration "urn:imei:1" unregistered (pos 10) deployment).1
          ≡ step late (view "urn:imei:1" deployment))
        × ((create_registration "urn:imei:1" unregistered (pos 10) deployment).1.resource_types
            ≡ deployment.resource_types))
unfolding find_type
create_registration-step_example =
    create_registration-step "urn:imei:1" unregistered (pos 10) deployment (omega arith) refl

abbrev no_float : String → Bool
no_float text = false

abbrev level_type : ResourceType
level_type = record { object_id = pos 3; resource_id = pos 9; name = ""; data_type = integer }

typed_row-get_value_example :
    read_row level_type
      (typed_row no_float level_type int_value " 42" (bare_resource "urn:imei:1" 4) deployment).0
    ≡ read_as no_float integer " 42"
unfolding value_field
typed_row-get_value_example =
    typed_row-get_value no_float "urn:imei:1" 4 " 42" deployment level_type int_value refl

abbrev restart : OperationData
restart = record {
  resource = 2;
  instance_id = 0;
  operation_type = "";
  status = queued;
  last_attempt = none;
}

post_operation_stores_example :
    Stored "urn:imei:2" restart deployment (post_operation "urn:imei:2" (some restart) deployment)
    ⊎ Refused "urn:imei:2" restart deployment
        (post_operation "urn:imei:2" (some restart) deployment)
post_operation_stores_example = post_operation_stores "urn:imei:2" restart deployment

abbrev no_time : String → Option ℕ
no_time text = none

gateway_posts-Framed_example :
    ((body : Option (String × ℤ × ResourceData))
      → Framed deployment (post_single no_float body deployment).1)
    × ((body : Option (String × List ObjectData))
        → Framed deployment (post_composite no_float body deployment).1)
    × ((body : Option (String × List (List Nodes)))
        → Framed deployment (post_timestamped no_float no_time body deployment).1)
gateway_posts-Framed_example =
    gateway_posts-Framed no_float no_time deployment (omega arith) (omega arith) (omega arith)
      (omega arith) (omega arith)

-- The value of another type is refused, and the device that reported it is known from then on.
abbrev misfit : ResourceData
misfit = record { kind = single_resource; id = pos 3; type = integer; value = some "7" }

misfit_refused :
    (post_single no_float (some ("urn:imei:3", pos 3, misfit)) deployment).0 ≡ ok bad_request
unfolding post_single
misfit_refused = refl

abbrev release : ResourceData
release = record { kind = single_resource; id = pos 3; type = string; value = some "1.2.3" }

-- Two timestamps with two resources each.
abbrev history : List (List Nodes)
history =
    (record { timestamp = "null"; nodes = ("/3/0/3", release) ∷ ("/3/0/3", release) ∷ [] }
      ∷ record { timestamp = "null"; nodes = ("/3/0/3", release) ∷ ("/3/0/9", misfit) ∷ [] }
      ∷ [])
    ∷ []

create_timestamped-OneEvent_example :
    OneEvent "urn:imei:1" deployment
      (create_timestamped no_float no_time "urn:imei:1" history deployment).1
create_timestamped-OneEvent_example =
    create_timestamped-OneEvent "urn:imei:1" deployment no_float no_time history

-- The second object has no instances, which raises after its event was stored.
abbrev readings : List ObjectData
readings =
    record { id = pos 3; instances = some ((release ∷ []) ∷ []) }
    ∷ record { id = pos 4; instances = none }
    ∷ []

create_composite-Ends_example :
    Ends
      (λ _. Logged "urn:imei:1" deployment readings)
      (LoggedUpTo "urn:imei:1" deployment readings)
      (create_composite no_float "urn:imei:1" readings deployment)
create_composite-Ends_example = create_composite-Ends "urn:imei:1" deployment no_float readings
