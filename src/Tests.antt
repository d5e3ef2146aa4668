-- ===== src/Tests.antt =====
-- Evaluations on small databases, and the theorems at concrete inputs.
mod Data
mod Access
mod Fota
mod Tasks
mod Ingest
mod Frontend
mod System
mod Readings
mod Devices
mod Pump
mod Simulator
mod Commands
mod Sheets
mod Admin
