-- ===== src/Lib.antt =====
-- Verification library of flownexus, an LwM2M server: the Django server under server/django keeps
-- devices ("endpoints"), their resources, firmware updates and users; a gateway posts what devices
-- report to the REST API and sends operations to devices.
--
-- Parts and where they are modelled (paths from the repository's root):
-- - Models: server/django/sensordata/models.py. `Models.Rows` has the rows, `Models.Db` the database
--   with the broker's queue and the clock, `Models.Exec` the statements that read and write it and
--   may raise, `Models.Membership`, `Models.Device` and `Models.Update` the methods of the models.
-- - Fota: `handle_fota` and its helpers in server/django/sensordata/serializers/base.py.
-- - Ingest: `handle_resource` of base.py (`Ingest.Resource`), the single, composite and timestamped
--   serializers (`Ingest.Serializers`) and registration_serializer.py (`Ingest.Registration`).
-- - Tasks: server/django/sensordata/tasks.py. `send_operation` is `begin_send`, the HTTP
--   request, and `finish_send`, so that what other processes do meanwhile stands between the two.
-- - Api: server/django/sensordata/views.py, and generic_serializer.py beside base.py.
-- - Access: in server/django, core/middleware.py (`Access.Middleware`), core/permissions.py
--   (`Access.Permissions`) and frontend/context_processors.py (`Access.Navigation`).
-- - Frontend: server/django/frontend/views.py and forms.py beside it: `switch_site` (`Frontend.Page`),
--   `firmware_list` (`Frontend.Firmwares`) and `permissions` (`Frontend.Grants`).
--   `Frontend.Dashboard` is the view `dashboard`, `Frontend.Readings` the filters, rows and sheets of
--   `data_analysis_export`, with the JSON pages of `data_analysis` in `Readings.Pages`,
--   `Frontend.Pump` the pump monitor: the list, the detail and the export. `Frontend.Devices` is the
--   view `devices`, `Frontend.Paging` the paginator of Django, as an interface.
-- - Simulator: devtools/mock/device_simulator.py, the devices that stand in for real ones.
-- - Commands: in server/django/sensordata/management/commands, load_initial_resource_types.py
--   (`Commands`) and load_scenario.py (`Commands.Members`, `Commands.Scenario`), from the parsed file on.
-- - Admin: server/django/sensordata/admin.py, what its forms save beyond their fields.
-- - System: the calls and tasks as steps on one database, in any order; the two halves of a send are
--   separate steps, and a request to the gateway may be answered at any time or never.
-- - Text: the Python text functions that these call. Table: tables of rows, with the queries of the
--   ORM that the source uses. Prelude: shared names, tests, lists and integers.
--
-- How they interact: a request goes through `site_context`, which sets the context that
-- `has_site_permission` and `site_filtered_endpoints` read; pages and the REST views write rows and
-- put tasks on the queue; `process_pending` turns the queued operations of an endpoint into tasks,
-- and `finish_send` and `handle_fota` bring operations and updates to their end.
--
-- Representation: a table is a list of rows under rising keys with the next key; a foreign key is a
-- key. A statement commits by itself, so what was written before an exception stays, except inside
-- `atomic`. Every loop is over a list that the code has read, so no fuel is needed there; printing a
-- number of n takes n + 1 rounds at most, which is the fuel of `decimal`, and n tenths at most, which is
-- the fuel of `decimal_text`. Integers are unbounded, as in Python, and `check_column` writes out what a
-- 64-bit column refuses.
--
-- Not modelled: field validation and rendering of Django and its REST framework (requests are
-- validated data, `none` where validation refuses them, but the checks that the source adds are
-- written out); `float` and `dateutil.parser.parse`, which are parameters that say which texts they
-- read; characters outside ASCII in `lower` and `int`; passwords; logging. A float column holds its
-- text. Columns that are unique are looked up by the first row that has the value. Of rows with the
-- same time, an ordering by time takes the one with the smaller key first. The generic forms and lists of
-- the admin site are not modelled, and what they write is no step of System; nor are the commands, which
-- fill a database before the server runs.
pub mod Prelude
pub mod Text
pub mod Table
pub mod Models
pub mod Fota
pub mod Ingest
pub mod Tasks
pub mod Api
pub mod Access
pub mod Frontend
pub mod System
pub mod Simulator
pub mod Tests
pub mod Commands
pub mod Admin
