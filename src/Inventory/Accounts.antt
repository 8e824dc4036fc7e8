-- ===== src/Inventory/Accounts.antt =====
-- The accounts that services/inventory/src/inventory keeps: a position's reserved quantity against
-- the open holds on it, its quantity on hand against the ledger, and the constraints of models.py.
pub mod Sums
pub mod Positions
pub mod Valid
pub mod Releases
pub mod Loops
pub mod Updates
pub mod Booked
