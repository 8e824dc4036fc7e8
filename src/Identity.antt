-- ===== src/Identity.antt =====
-- services/identity: the logins, their sessions and the users.
pub mod Models
pub mod Repository
pub mod Auth
pub mod Users
pub mod Assignments
pub mod Sessions
pub mod System
pub mod Tests
