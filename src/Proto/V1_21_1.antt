-- ===== src/Proto/V1_21_1.antt =====
-- crates/statik_proto/src/v1_21_1/mod.rs: Minecraft 1.21.1.
pub mod C2s
pub mod S2c
use Prim.Native.String.{String}
use statik_rs.Prelude.{ℕ}

abbrev pub protocol_version : ℕ
protocol_version = 767

abbrev pub minecraft_version : String
minecraft_version = "1.21.1"
