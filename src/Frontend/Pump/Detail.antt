-- ===== src/Frontend/Pump/Detail.antt =====
-- `pump_monitor` with `format=detail`: one event with its samples. The parameter `event_id` is read as
-- a number, `none` where it is missing; an `x` of the chart is given in hundredths of a second.
use flownexus.Prelude.{
  ℕ, suc, ◌*◌, String, Bool, ◌&&◌, Option, none, some, List, [], ◌∷◌, length, ◌==◌, nat_key,
  text_key, is_some, if◌then◌else◌,
}
use flownexus.Text.{codes, same_codes}
use flownexus.Table.{Rows, first, find, get}
use flownexus.Models.Rows.{User, Site, Endpoint, Resource, Event, can_view_data_analysis}
use flownexus.Models.Db.{Db}
use flownexus.Access.Middleware.{Context}
use flownexus.Access.Permissions.{has_site_permission}
use flownexus.Frontend.Readings.{analysed}
use flownexus.Frontend.Pump.{press_raw, decode_samples}

abbrev pub binary_of : Option Resource → Option (List ℕ)
binary_of none = none
binary_of (some r) = r.binary_value

-- The samples that the chart of an event shows.
unfoldable pub event_samples : Db → ℕ → List ℕ
unfolding press_raw
event_samples db event = decode_samples (binary_of (press_raw db event))

-- `enumerate(samples)`, from `i` on.
unfoldable pub chart_from : ℕ → List ℕ → List (ℕ × ℕ)
chart_from i [] = []
chart_from i (s ∷ rest) = (2 * i, s) ∷ chart_from (suc i) rest

abbrev pub name_of : Option Site → String
name_of none = ""
name_of (some s) = s.name

-- `endpoint.site.name if endpoint.site else ""`
abbrev pub site_name : Db → Option Endpoint → String
site_name db none = ""
site_name db (some e) = elim e.site [ none ↦ "" | some s ↦ name_of (get s db.sites) ]

pub record PumpDetail : Type 0 where
  pub id : ℕ
  pub endpoint : String
  pub site : String
  pub time : ℕ
  pub sample_count : ℕ
  pub chart_data : List (ℕ × ℕ)

unfoldable pub detail_of : Db → ℕ × Event → PumpDetail
unfolding event_samples chart_from
detail_of db (k, e) =
    let samples = event_samples db k in
    record {
      id = k;
      endpoint = e.endpoint;
      site = site_name db (find e.endpoint db.endpoints);
      time = e.time;
      sample_count = length samples;
      chart_data = chart_from 0 samples;
    }

-- 403, 400, 404 or the event.
pub data PumpReply : Type 0 where
  not_allowed event_id_required event_not_found : PumpReply
  event_shown : PumpDetail → PumpReply

abbrev pub reply_with : Db → Option (ℕ × Event) → PumpReply
reply_with db none = event_not_found
reply_with db (some row) = event_shown (detail_of db row)

-- The filter on the event's key, its endpoint and its type.
abbrev pub is_pump_event_at : Rows String Endpoint → ℕ → ℕ → Event → Bool
is_pump_event_at eps id k e =
    k == id && (is_some (find e.endpoint eps) && same_codes e.event_type (codes "10300"))

module _ (db : Db) (u : ℕ) (user : User) (c : Context) where
  unfoldable pub show_event : Option ℕ → PumpReply
  unfolding detail_of
  show_event none = event_id_required
  show_event (some id) =
      reply_with db (first (is_pump_event_at (analysed db u user c) id) db.events.rows)

  unfoldable pub pump_detail : Option ℕ → PumpReply
  unfolding show_event
  pump_detail id =
      if has_site_permission db u user c can_view_data_analysis then show_event id else not_allowed
