-- ===== src/Models.antt =====
-- server/django/sensordata/models.py: the rows of the database (`Rows`), the database and the calls
-- that read and write it (`Db`, `Exec`), and the methods of the models (`Membership`, `Device`, `Update`).
pub mod Rows
pub mod Db
pub mod Exec
pub mod Keeps
pub mod Gives
pub mod Membership
pub mod Device
pub mod Update
pub mod Save
pub mod Roles
