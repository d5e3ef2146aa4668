-- ===== src/Frontend.antt =====
-- The web interface of server/django/frontend: views.py and the forms of forms.py. The views stand
-- behind `login_required`, so the user `u` is always authenticated.
pub mod Page
pub mod Paging
pub mod Firmwares
pub mod Grants
pub mod Dashboard
pub mod Readings
pub mod Devices
pub mod Pump
