-- ===== src/Core.antt =====
-- crates/core: the per-node engine.
pub mod Mailbox
pub mod Ids
pub mod Registry
pub mod Rooms
pub mod Limits
pub mod Identity
pub mod Engine
pub mod Broadcast
pub mod Relay
pub mod Config
pub mod Events
pub mod Verbs
pub mod Authorize
