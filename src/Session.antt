-- ===== src/Session.antt =====
-- runtime/src/session.rs: sessions, their connections, and the manager that owns them.
pub mod Policy
pub mod Environment
pub mod Outbound
pub mod Takeover
pub mod Handle
pub mod Attach
pub mod Manager
mod Examples
