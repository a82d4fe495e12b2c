-- ===== src/Proto/V1_20_1.antt =====
-- crates/statik_proto/src/v1_20_1/mod.rs: Minecraft 1.20.1.
pub mod C2s
pub mod S2c
use Prim.Native.String.{String}
use statik_rs.Prelude.{ℕ}

abbrev pub protocol_version : ℕ
protocol_version = 763

abbrev pub minecraft_version : String
minecraft_version = "1.20.1"
