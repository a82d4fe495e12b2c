-- ===== src/Core.antt =====
-- The crate `statik_core` (crates/statik_core/src): the wire types and the traits they implement.
pub mod Result
pub mod State
pub mod VarInt
pub mod Utf8
pub mod Position
pub mod Status
pub mod Crates
pub mod Wire
pub mod BitSet
