-- ===== src/Api/Frame.antt =====
-- What the gateway's posts leave alone.
use flownexus.Prelude.{
  ℕ, String, Bool, false, ◌≡◌, refl, Option, none, some, List, [], ◌∷◌, ◌++◌, is_some, text_key,
  Bool-cases, inl, inr,
}
use flownexus.Prelude.Int.{ℤ}
use flownexus.Table.{Rows, find}
use flownexus.Table.Laws.{IsValid, insert-IsValid, put-IsValid, find-append}
use flownexus.Models.Rows.{Endpoint}
use flownexus.Models.Db.{Db}
use flownexus.Models.Keeps.{Keeps, keeps_rules}
use flownexus.Models.Device.{create_resource, create_operation}
use flownexus.Models.Update.{save_update}
use flownexus.Ingest.Closed.{Closed}
use flownexus.Ingest.Stores.{create_single-Keeps, create_composite-Keeps, create_timestamped-Keeps}
use flownexus.Ingest.Resource.{ResourceData, get_or_create_endpoint, create_event, link_event}
use flownexus.Ingest.Serializers.{ObjectData, Nodes}
use flownexus.Api.Catch.{Keeps-catch}
use flownexus.Api.{post_single, post_composite, post_timestamped}

-- The device `ep` is still there with the site and the state that it had.
abbrev pub StillThere : Rows String Endpoint → Rows String Endpoint → Type 0
StillThere before after =
    (ep : String) (e : Endpoint) → find ep before ≡ some e → find ep after ≡ some e

-- Users, sites, memberships, resource types and firmwares are as they were, the devices that were
-- there are unchanged, and every table of what devices report still has unique keys.
abbrev pub Framed : Db → Db → Type 0
Framed db after =
    (after.users ≡ db.users)
    × (after.sites ≡ db.sites)
    × (after.memberships ≡ db.memberships)
    × (after.resource_types ≡ db.resource_types)
    × (after.firmwares ≡ db.firmwares)
    × StillThere db.endpoints after.endpoints
    × IsValid after.resources
    × IsValid after.events
    × IsValid after.event_resources
    × IsValid after.operations
    × IsValid after.updates

StillThere-append :
    (ep : String) (e : Endpoint) (before rows : Rows String Endpoint)
    → StillThere before rows
    → StillThere before (rows ++ (ep, e) ∷ [])
StillThere-append ep e before rows h name old here =
    rw (find-append name ep e rows, h name old here) refl

module _ (before : Db) where
  appended :
      (ep : String) (db : Db)
      → Framed before db
      → Framed before (record db {
        endpoints = db.endpoints ++ (ep, record { registered = false; site = none }) ∷ [];
      })
  appended ep db (a, b, c, d, e, f, g, i, j, k, l) = (
    a,
    b,
    c,
    d,
    e,
    StillThere-append ep (record { registered = false; site = none }) before.endpoints db.endpoints
        f,
    g,
    i,
    j,
    k,
    l,
  )

endpoint-Framed : (before : Db) (ep : String) → Keeps (Framed before) (get_or_create_endpoint ep)
unfolding get_or_create_endpoint
endpoint-Framed before ep = record {
  at = λ db h. elim (Bool-cases (is_some (find ep db.endpoints))) [
    | inl known ↦ simp known h
    | inr new ↦ simp new (appended before ep db h)
  ];
}

link-Framed : (before : Db) (e : Option ℕ) (r : ℕ) → Keeps (Framed before) (link_event e r)
unfolding link_event
link-Framed before none r = record { at = λ db h. h }
link-Framed before (some e) r = record {
  at = λ db (a, b, c, d, e, f, g, i, j, k, l).
      (a, b, c, d, e, f, g, i, insert-IsValid _ db.event_resources j, k, l);
}

closed : (before : Db) → Closed (Framed before)
unfolding create_resource create_operation save_update create_event
closed before = record {
  writes = record {
    resource = λ ts r. record {
      at = λ db (a, b, c, d, e, f, g, i, j, k, l).
          (a, b, c, d, e, f, insert-IsValid _ db.resources g, i, j, k, l);
    };
    operation = λ r. record {
      at = λ db (a, b, c, d, e, f, g, i, j, k, l).
          (a, b, c, d, e, f, g, i, j, insert-IsValid _ db.operations k, l);
    };
    saved_operation = λ n o. record {
      at = λ db (a, b, c, d, e, f, g, i, j, k, l).
          (a, b, c, d, e, f, g, i, j, put-IsValid n o db.operations k, l);
    };
    saved_update = λ n u. record {
      at = λ db (a, b, c, d, e, f, g, i, j, k, l).
          (a, b, c, d, e, f, g, i, j, k, put-IsValid n _ db.updates l);
    };
    task = λ t. record { at = λ db h. h };
  };
  link = link-Framed before;
  endpoint = endpoint-Framed before;
  event = λ ep t. record {
    at = λ db (a, b, c, d, e, f, g, i, j, k, l).
        (a, b, c, d, e, f, g, insert-IsValid _ db.events i, j, k, l);
  };
}

module _ (is_float : String → Bool) (parse_time : String → Option ℕ) (before : Db) where
  single-Framed :
      (body : Option (String × ℤ × ResourceData))
      → Keeps (Framed before) (post_single is_float body)
  unfolding post_single
  single-Framed none = search keeps_rules
  single-Framed (some (ep, obj, res)) =
      search (Keeps-catch, keeps_rules, create_single-Keeps (closed before) is_float) depth 9

  composite-Framed :
      (body : Option (String × List ObjectData))
      → Keeps (Framed before) (post_composite is_float body)
  unfolding post_composite
  composite-Framed none = search keeps_rules
  composite-Framed (some (ep, objs)) =
      search (Keeps-catch, keeps_rules, create_composite-Keeps (closed before) is_float) depth 9

  timestamped-Framed :
      (body : Option (String × List (List Nodes)))
      → Keeps (Framed before) (post_timestamped is_float parse_time body)
  unfolding post_timestamped
  timestamped-Framed none = search keeps_rules
  timestamped-Framed (some (ep, items)) =
      search
        (Keeps-catch, keeps_rules, create_timestamped-Keeps (closed before) is_float parse_time)
        depth 9

-- Whatever the gateway posts as resource data, and however the request ends: users, sites,
-- memberships, resource types and firmwares stay as they were, a device that was there keeps its site
-- and its state, and the tables that are written keep unique keys.
pub gateway_posts-Framed :
    (is_float : String → Bool) (parse_time : String → Option ℕ) (db : Db)
    → IsValid db.resources
    → IsValid db.events
    → IsValid db.event_resources
    → IsValid db.operations
    → IsValid db.updates
    → ((body : Option (String × ℤ × ResourceData)) → Framed db (post_single is_float body db).1)
      × ((body : Option (String × List ObjectData)) → Framed db (post_composite is_float body db).1)
      × ((body : Option (String × List (List Nodes)))
          → Framed db (post_timestamped is_float parse_time body db).1)
gateway_posts-Framed is_float parse_time db r e l o u =
    let start : Framed db db = (refl, refl, refl, refl, refl, λ ep d h. h, r, e, l, o, u) in
    (
      λ body. (single-Framed is_float parse_time db body).at db start,
      λ body. (composite-Framed is_float parse_time db body).at db start,
      λ body. (timestamped-Framed is_float parse_time db body).at db start,
    )
