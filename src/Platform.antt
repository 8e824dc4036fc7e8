-- ===== src/Platform.antt =====
-- libs/sl-platform/src/sl_platform: the plumbing that every service shares.
pub mod Errors
pub mod Session
pub mod Roles
pub mod Auth
pub mod Events
pub mod Outbox
pub mod Consumer
pub mod Idempotency
pub mod Http
pub mod Tests
