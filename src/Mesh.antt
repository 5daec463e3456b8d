-- ===== src/Mesh.antt =====
-- crates/mesh/src: the cluster mesh, one module for each file that is modelled.
pub mod Frame
pub mod Queue
pub mod Addr
pub mod Rng
pub mod Swim
pub mod Sync
pub mod Probe
pub mod Crypto
pub mod Hello
pub mod Config
pub mod Handshake
pub mod Link
pub mod Interest
pub mod Relay
pub mod Node
mod Tests
