-- ===== src/Proto.antt =====
-- The crate `statik_proto` (crates/statik_proto/src): the packets of the two protocol versions.
pub mod Chunk
pub mod Common
pub mod V1_20_1
pub mod V1_21_1
