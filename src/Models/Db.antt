-- ===== src/Models/Db.antt =====
-- The state that the server's processes share: the tables, the broker's queue and the clock that
-- `timezone.now()` reads.
use flownexus.Prelude.{ℕ, String, List, []}
use flownexus.Table.{Rows, Table, empty}
use flownexus.Models.Rows.{
  User, Site, SiteMembership, Endpoint, ResourceType, Resource, Event, EventResource,
  EndpointOperation, Firmware, FirmwareUpdate, Task,
}

pub record Db : Type 0 where
  pub users : Table User
  pub sites : Table Site
  pub memberships : Table SiteMembership
  pub endpoints : Rows String Endpoint
  pub resource_types : Table ResourceType
  pub resources : Table Resource
  pub events : Table Event
  pub event_resources : Table EventResource
  pub operations : Table EndpointOperation
  pub firmwares : Table Firmware
  pub updates : Table FirmwareUpdate
  pub tasks : List Task
  pub now : ℕ

abbrev pub new_db : Db
new_db = record {
  users = empty;
  sites = empty;
  memberships = empty;
  endpoints = [];
  resource_types = empty;
  resources = empty;
  events = empty;
  event_resources = empty;
  operations = empty;
  firmwares = empty;
  updates = empty;
  tasks = [];
  now = 0;
}
