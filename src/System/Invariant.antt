-- ===== src/System/Invariant.antt =====
-- The invariant of the server: whatever runs, in whatever order.
use flownexus.Prelude.{ℕ, String, Bool, Option, none, some, List}
use flownexus.Models.Rows.{User, Task}
use flownexus.Models.Db.{Db}
use flownexus.Models.Keeps.{Keeps, keeps_rules}
use flownexus.Ingest.Stores.{create_single-Keeps, create_composite-Keeps, create_timestamped-Keeps}
use flownexus.Api.{post_single, post_composite, post_timestamped}
use flownexus.Api.Catch.{Keeps-catch}
use flownexus.Frontend.Grants.{Grant, permissions_page}
use flownexus.System.{
  Entry, registration, single, composite, timestamped, firmware, operation, firmwares, permissions,
  pending, device, operation_added, operation_changed, update_added, update_changed, System, call,
  Step, called, begun, finished, handed_out, passed, Reach, here, later,
}
use flownexus.System.Calls.{
  Wider, registration-Keeps, firmware-Keeps, operation_post-Keeps, pending-Keeps, device-Keeps,
  add_operation-Keeps, change_operation-Keeps, add_update-Keeps, change_update-Keeps,
}
use flownexus.System.Pages.{begin_send-Keeps, finish_send-Keeps, page-Keeps}
use flownexus.System.Sound.{Sound}

-- What a predicate needs besides the single writes: the permissions page, the broker and the clock.
pub record Settled (P : Db → Type 0) : Type 0 where
  pub wide : Wider P
  pub granted : (user : User) (g : Option Grant) → Keeps P (permissions_page user g)
  pub tasks : (db : Db) (ts : List Task) → P db → P (record db { tasks = ts })
  pub clock : (db : Db) (t : ℕ) → P db → P (record db { now = t })

module _ (is_float : String → Bool) (parse_time : String → Option ℕ) {P : Db → Type 0}
    (p : Settled P) where
  single-kept : (body : Option _) → Keeps P (post_single is_float body)
  unfolding post_single
  single-kept none = search keeps_rules
  single-kept (some (ep, obj, res)) =
      search (Keeps-catch, keeps_rules, create_single-Keeps p.wide.ingest is_float) depth 9

  composite-kept : (body : Option _) → Keeps P (post_composite is_float body)
  unfolding post_composite
  composite-kept none = search keeps_rules
  composite-kept (some (ep, objs)) =
      search (Keeps-catch, keeps_rules, create_composite-Keeps p.wide.ingest is_float) depth 9

  timestamped-kept : (body : Option _) → Keeps P (post_timestamped is_float parse_time body)
  unfolding post_timestamped
  timestamped-kept none = search keeps_rules
  timestamped-kept (some (ep, items)) =
      search (Keeps-catch, keeps_rules, create_timestamped-Keeps p.wide.ingest is_float parse_time)
        depth 9

  call-kept : (e : Entry) (db : Db) → P db → P (call is_float parse_time e db)
  unfolding call
  call-kept (registration body) = (registration-Keeps p.wide body).at
  call-kept (single body) = (single-kept body).at
  call-kept (composite body) = (composite-kept body).at
  call-kept (timestamped body) = (timestamped-kept body).at
  call-kept (firmware ep body) = (firmware-Keeps p.wide ep body).at
  call-kept (operation ep body) = (operation_post-Keeps p.wide ep body).at
  call-kept (firmwares u user c post) = (page-Keeps p.wide u user c post).at
  call-kept (permissions user g) = (p.granted user g).at
  call-kept (pending ep) = (pending-Keeps p.wide ep).at
  call-kept (device ep answer) = (device-Keeps p.wide is_float ep answer).at
  call-kept (operation_added resource id) = (add_operation-Keeps p.wide resource id).at
  call-kept (operation_changed k id) = (change_operation-Keeps p.wide k id).at
  call-kept (update_added ep fw) = (add_update-Keeps p.wide ep fw).at
  call-kept (update_changed k ep fw) = (change_update-Keeps p.wide k ep fw).at

  step-kept : (s t : System) → Step is_float parse_time s t → P s.db → P t.db
  step-kept s t (called e) h = call-kept e s.db h
  step-kept s t (begun k request o started) h = (begin_send-Keeps p.wide k).at s.db h
  step-kept s t (finished k o response before after split) h =
      (finish_send-Keeps p.wide k o response).at s.db h
  step-kept s t (handed_out ts) h = p.tasks s.db ts h
  step-kept s t (passed now later_on) h = p.clock s.db now h

  pub reach-kept : (s t : System) → Reach is_float parse_time s t → P s.db → P t.db
  reach-kept s t here h = h
  reach-kept s t (later mid end r step) h = step-kept mid t step (reach-kept s mid r h)
