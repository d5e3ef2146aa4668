-- ===== src/System/Sound.antt =====
-- Keys stay unique, and memberships single, in whatever order the server's parts run.
use flownexus.Prelude.{ℕ, String, Option, none, some, Bool-cases, inl, inr, is_some, text_key}
use flownexus.Table.{find}
use flownexus.Table.Laws.{IsValid, insert-IsValid, put-IsValid}
use flownexus.Models.Db.{Db}
use flownexus.Models.Keeps.{Keeps}
use flownexus.Models.Device.{create_resource, create_operation}
use flownexus.Models.Update.{save_update, insert_update}
use flownexus.Ingest.Closed.{Closed}
use flownexus.Ingest.Resource.{get_or_create_endpoint, create_event, link_event}
use flownexus.Ingest.Registration.{set_registered}
use flownexus.Api.{save_firmware, insert_operation}
use flownexus.Frontend.Grants.Unique.{OneEach, Keeping}
use flownexus.Frontend.Grants.{add_user, add_site}
use flownexus.System.Calls.{Wider}
use flownexus.System.Runs.{Granting}

-- The keys of every other table are unique.
abbrev pub Keyed : Db → Type 0
Keyed db =
    IsValid db.users
    × IsValid db.sites
    × IsValid db.resource_types
    × IsValid db.resources
    × IsValid db.events
    × IsValid db.event_resources
    × IsValid db.operations
    × IsValid db.firmwares
    × IsValid db.updates

abbrev pub Sound : Db → Type 0
Sound db = OneEach db.memberships × Keyed db

-- A predicate that looks at no endpoints.
module _ {P : Db → Type 0}
    (blind : (db : Db) (rows : _) → P db → P (record db { endpoints = rows })) where
  pub endpoint-kept : (ep : String) → Keeps P (get_or_create_endpoint ep)
  unfolding get_or_create_endpoint
  endpoint-kept ep = record {
    at = λ db h. elim (Bool-cases (is_some (find ep db.endpoints))) [
      | inl known ↦ simp known h
      | inr new ↦ simp new (blind db _ h)
    ];
  }

Keyed-ingest : Closed Keyed
unfolding create_resource create_operation save_update create_event link_event
Keyed-ingest = record {
  writes = record {
    resource = λ ts r. record {
      at = λ db (u, s, t, r', e, l, o, f, v).
          (u, s, t, insert-IsValid _ db.resources r', e, l, o, f, v);
    };
    operation = λ r. record {
      at = λ db (u, s, t, r', e, l, o, f, v).
          (u, s, t, r', e, l, insert-IsValid _ db.operations o, f, v);
    };
    saved_operation = λ k x. record {
      at = λ db (u, s, t, r', e, l, o, f, v).
          (u, s, t, r', e, l, put-IsValid k x db.operations o, f, v);
    };
    saved_update = λ k x. record {
      at = λ db (u, s, t, r', e, l, o, f, v).
          (u, s, t, r', e, l, o, f, put-IsValid k _ db.updates v);
    };
    task = λ t. record { at = λ db h. h };
  };
  link = link-kept;
  endpoint = endpoint-kept (λ db rows h. h);
  event = λ ep t. record {
    at = λ db (u, s, t', r', e, l, o, f, v).
        (u, s, t', r', insert-IsValid _ db.events e, l, o, f, v);
  };
}
  where
    link-kept : (e : Option ℕ) (r : ℕ) → Keeps Keyed (link_event e r)
    link-kept none r = record { at = λ db h. h }
    link-kept (some e) r = record {
      at = λ db (u, s, t, r', e', l, o, f, v).
          (u, s, t, r', e', insert-IsValid _ db.event_resources l, o, f, v);
    }

pub Keyed-wider : Wider Keyed
unfolding set_registered insert_update save_firmware insert_operation
Keyed-wider = record {
  ingest = Keyed-ingest;
  registered = λ ep flag. record { at = λ db h. h };
  new_update = λ ep fw uri. record {
    at =
        λ db (u, s, t, r', e, l, o, f, v). (u, s, t, r', e, l, o, f, insert-IsValid _ db.updates v);
  };
  new_firmware = λ version file. record {
    at = λ db (u, s, t, r', e, l, o, f, v).
        (u, s, t, r', e, l, o, insert-IsValid _ db.firmwares f, v);
  };
  new_operation = λ d. record {
    at = λ db (u, s, t, r', e, l, o, f, v).
        (u, s, t, r', e, l, insert-IsValid _ db.operations o, f, v);
  };
  saved_firmware = λ k fw. record {
    at = λ db (u, s, t, r', e, l, o, f, v).
        (u, s, t, r', e, l, o, put-IsValid k fw db.firmwares f, v);
  };
}

pub Keyed-Granting : Granting Keyed
unfolding add_user add_site
Keyed-Granting = record {
  members = λ db t h. h;
  devices = λ db rows h. h;
  user = λ name email. record {
    at = λ db (u, s, t, r, e, l, o, f, v). (insert-IsValid _ db.users u, s, t, r, e, l, o, f, v);
  };
  site = λ name text. record {
    at = λ db (u, s, t, r, e, l, o, f, v). (u, insert-IsValid _ db.sites s, t, r, e, l, o, f, v);
  };
}

Keeping-ingest : Closed Keeping
unfolding create_resource create_operation save_update create_event link_event
Keeping-ingest = record {
  writes = record {
    resource = λ ts r. record { at = λ db h. h };
    operation = λ r. record { at = λ db h. h };
    saved_operation = λ k x. record { at = λ db h. h };
    saved_update = λ k x. record { at = λ db h. h };
    task = λ t. record { at = λ db h. h };
  };
  link = link-kept;
  endpoint = endpoint-kept (λ db rows h. h);
  event = λ ep t. record { at = λ db h. h };
}
  where
    link-kept : (e : Option ℕ) (r : ℕ) → Keeps Keeping (link_event e r)
    link-kept none r = record { at = λ db h. h }
    link-kept (some e) r = record { at = λ db h. h }

pub Keeping-wider : Wider Keeping
unfolding set_registered insert_update save_firmware insert_operation
Keeping-wider = record {
  ingest = Keeping-ingest;
  registered = λ ep flag. record { at = λ db h. h };
  new_update = λ ep fw uri. record { at = λ db h. h };
  new_firmware = λ version file. record { at = λ db h. h };
  new_operation = λ d. record { at = λ db h. h };
  saved_firmware = λ k fw. record { at = λ db h. h };
}
