-- ===== src/Inventory.antt =====
-- services/inventory/src/inventory: the catalog, stock positions, holds and the stock ledger.
pub mod Models
pub mod Events
pub mod Replicas
pub mod Schemas
pub mod Holds
pub mod Reservations
pub mod Reserve
pub mod Accounts
pub mod Stock
pub mod System
pub mod Consumers
pub mod Tests
