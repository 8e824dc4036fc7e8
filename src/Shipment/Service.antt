-- ===== src/Shipment/Service.antt =====
-- services/shipment/src/shipment/services/shipments.py: ShipmentService, with the events of
-- events.py. The answer of the Inventory service to the one synchronous call is an argument of
-- `create`, as are the random barcodes. The clock is read once in a method.
pub mod Requests
pub mod Create
pub mod Changes
pub mod Listing
pub mod Steps
pub mod Moves
pub mod Stale
pub mod Written
pub mod Succeeds
