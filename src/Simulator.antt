-- ===== src/Simulator.antt =====
-- The simulated devices of devtools/mock/device_simulator.py: what they answer to the server's requests
-- and what they post. A device always posts, whatever it is answered. A measurement is given as the
-- text that `round` and `random` make of it.
pub mod Steps
pub mod Rollout
use Prim.Native.Char.{code}
use flownexus.Prelude.{
  ℕ, String, Bool, true, false, ◌&&◌, Option, none, some, List, [], ◌∷◌, ◌++◌, ◌==◌, text_key,
  nat_eq, if◌then◌else◌,
}
use flownexus.Prelude.Int.{ℤ, pos, int_key}
use flownexus.Text.{codes, same_codes}
use flownexus.Models.Rows.{DataType, integer, string, float}
use flownexus.Models.Db.{Db}
use flownexus.Models.Device.{Value, text}
use flownexus.Models.Exec.{Result, ok, err}
use flownexus.Tasks.{Response, Request, post, put_value}
use flownexus.Ingest.Resource.{ResourceData, single_resource}
use flownexus.Ingest.Serializers.{ObjectData, Nodes}
use flownexus.Ingest.Registration.{RegistrationEvent, registered}
use flownexus.Api.{Reply, created, EventData, post_registration, post_single}

-- `endpoint.rsplit(":", 1)[-1]` and `os.path.basename(uri)`: what follows the last separator.
abbrev after_last : ℕ → String → String → String
after_last separator best String.[] = best
after_last separator best (String.◌∷◌ c s) =
    after_last separator (if nat_eq (code c) separator then s else best) s

unfoldable pub basename : String → String
basename uri = after_last b'/' uri uri

unfoldable pub imei_of : String → String
imei_of endpoint = after_last b':' endpoint endpoint

-- `version[: -len(ext)]` where `version.endswith(ext)`
unfoldable pub without_suffix : List ℕ → String → String
without_suffix ext String.[] = String.[]
without_suffix ext (String.◌∷◌ c s) =
    let rest = String.◌∷◌ c (without_suffix ext s) in
    if same_codes (codes (String.◌∷◌ c s)) ext then String.[] else rest

-- The version that `process_fota` reads from the file's name.
unfoldable pub version_from : String → String
unfolding basename without_suffix
version_from uri = without_suffix (codes ".zip") (
    without_suffix (codes ".xlsx")
      (without_suffix (codes ".exe") (without_suffix (codes ".bin") (basename uri))))

abbrev pub singleton : ℤ → DataType → String → ResourceData
singleton id type value = record {
  kind = single_resource;
  id = id;
  type = type;
  value = some value;
}

-- `device_object`: what a read of object 3 returns.
unfoldable pub device_object : String → ObjectData
unfolding imei_of
device_object endpoint = record {
  id = pos 3;
  instances = some (
      (singleton (pos 0) string "Acme Corp"
        ∷ singleton (pos 1) string "Mock Device"
        ∷ singleton (pos 2) string (imei_of endpoint)
        ∷ singleton (pos 3) string "v0.0.1"
        ∷ [])
      ∷ []);
}

-- A POST to `resource/single`.
abbrev pub SinglePost : Type 0
SinglePost = String × ℤ × ResourceData

-- The states that devices report, as `str(state)`.
pub data UpdateState : Type 0 where
  downloading downloaded updating : UpdateState

abbrev pub state_text : UpdateState → String
state_text downloading = "1"
state_text downloaded = "2"
state_text updating = "3"

unfoldable pub report_fota_state : String → UpdateState → SinglePost
report_fota_state ep state = (ep, pos 5, singleton (pos 3) integer (state_text state))

-- What the device knows of the firmware, under `fota_states`.
abbrev pub Downloads : Type 0
Downloads = String → Option String

abbrev pub learn : String → String → Downloads → Downloads
learn ep version known name = if name == ep then some version else known name

-- `process_fota`: what is posted, and what is known then. The flag says whether the download
-- succeeded.
unfoldable pub process_fota : String → String → Bool → Downloads → List SinglePost × Downloads
unfolding report_fota_state version_from
process_fota ep uri true known = (
  report_fota_state ep downloading ∷ report_fota_state ep downloaded ∷ [],
  learn ep (version_from uri) known,
)
process_fota ep uri false known = (report_fota_state ep downloading ∷ [], known)

abbrev pub or_mock : Option String → String
or_mock none = "v1.0.0-mock"
or_mock (some v) = v

-- `execute_fota`
unfoldable pub execute_fota : String → Downloads → List SinglePost
unfolding report_fota_state
execute_fota ep known =
    report_fota_state ep updating ∷ (ep, pos 3, singleton (pos 3) string (or_mock (known ep))) ∷ []

-- What a request starts in the device.
pub data Job : Type 0 where
  download : String → String → Job
  execute : String → Job

abbrev accepted : Response
accepted = record { status_code = 200; code = none }

abbrev not_found : Response
not_found = record { status_code = 404; code = none }

-- `data.get("value")` of a text.
abbrev uri_of : Value → String
uri_of (text t) = t
uri_of _ = ""

-- `do_PUT` and `do_POST` of the mock gateway.
unfoldable pub answer : Request → Response × Option Job
answer (put_value ep obj inst res value type) =
    if obj == pos 5 && res == pos 1
    then (accepted, some (download ep (uri_of value)))
    else (not_found, none)
answer (post ep obj inst res) =
    if obj == pos 5 && res == pos 2 then (accepted, some (execute ep)) else (not_found, none)

-- What the thread of a job posts, and what is known then; the flag is that of a download.
unfoldable pub run_job : Bool → Option Job → Downloads → List SinglePost × Downloads
unfolding process_fota execute_fota
run_job ok_download none known = ([], known)
run_job ok_download (some (download ep uri)) known = process_fota ep uri ok_download known
run_job ok_download (some (execute ep)) known = (execute_fota ep known, known)

-- `_send_telemetry`
unfoldable pub telemetry : String → String → String → String × List (List Nodes)
telemetry urn temperature humidity = (
  urn,
  (record {
    timestamp = "null";
    nodes =
        ("/3303/0/5700", singleton (pos 5700) float temperature)
        ∷ ("/3304/0/5700", singleton (pos 5700) float humidity)
        ∷ [];
  }
        ∷ [])
      ∷ [],
)

abbrev pub is_created : {A : Type 0} → Result (Reply A) → Bool
is_created (ok (created a)) = true
is_created _ = false

-- `_register_device`: whether the answer was 201.
unfoldable pub register_device : String → ℤ → Db → Bool × Db
unfolding post_registration
register_device urn time db =
    let run = post_registration (some (urn, registered, time)) db in (is_created run.0, run.1)

-- The registration of the devices in `start`: those that were accepted are simulated.
unfoldable pub register_all : List (String × ℤ) → Db → List String × Db
unfolding register_device
register_all [] db = ([], db)
register_all ((urn, time) ∷ rest) db =
    let (ok_here, after) = register_device urn time db in
    let (others, end) = register_all rest after in (if ok_here then urn ∷ others else others, end)

module _ (is_float : String → Bool) where
  -- The server's answers to posts in turn: whether each was 201, and the database.
  unfoldable pub send : SinglePost → Db → Bool × Db
  unfolding post_single
  send p db = let run = post_single is_float (some p) db in (is_created run.0, run.1)

  unfoldable pub send_all : List SinglePost → Db → Bool × Db
  send_all [] db = (true, db)
  send_all (p ∷ rest) db =
      let (here, after) = send p db in
      let (later, end) = send_all rest after in (here && later, end)
