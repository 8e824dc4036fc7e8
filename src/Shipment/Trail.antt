-- ===== src/Shipment/Trail.antt =====
-- The audit trail of the Shipment service: the history of each shipment's status.
pub mod Chain
pub mod Rows
pub mod Kept
pub mod Edited
pub mod Created
pub mod System
