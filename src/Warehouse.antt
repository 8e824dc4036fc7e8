-- ===== src/Warehouse.antt =====
-- services/warehouse/src/warehouse: facilities, their zones and opening hours.
pub mod Models
pub mod Schemas
pub mod Repository
pub mod Service
pub mod Schedule
pub mod Replicated
pub mod Api
pub mod Tests
