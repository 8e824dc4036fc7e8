-- ===== src/Shipment.antt =====
-- services/shipment/src/shipment: shipments, their parcels and the history of their status.
pub mod StateMachine
pub mod Models
pub mod Repository
pub mod Service
pub mod Trail
pub mod Saga
pub mod Tests
