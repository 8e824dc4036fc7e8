-- ===== src/Inventory/Tests.antt =====
-- A small database of the Inventory service, and the theorems of the service at work on it.
pub mod Samples
pub mod Witnesses
pub mod Events
pub mod Refusals
