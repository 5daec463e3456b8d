-- ===== src/Bridge.antt =====
-- crates/node: the bridge from the engine to JavaScript.
pub mod Flat
pub mod Drain
pub mod Delivery
mod Tests
