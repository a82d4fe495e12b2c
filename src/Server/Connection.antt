-- ===== src/Server/Connection.antt =====
-- crates/statik_server/src/connection.rs: the state of a connection and what its code is given.
-- `stream` is everything written so far; the peer address and the logging are left out, and
-- `staging` is cleared before each use. The configuration does not change under the connection.
pub mod Frame
pub mod Username
pub mod Burst
pub mod Handlers
pub mod Loop
use statik_rs.Prelude.{ℕ, ◌≡◌, Option, none, some, List, [], length}
use statik_rs.Prelude.Int.{ℤ}
use statik_rs.Core.Result.{Bytes}
use statik_rs.Core.State.{State}
use statik_rs.Server.Config.{ServerConfig}
use statik_rs.Server.Protocol.{ProtocolKind}

pub record Connection : Type 0 where
  pub config : ServerConfig
  pub protocol : ProtocolKind
  pub stream : Bytes
  pub buffer : Bytes
  pub state : State
  pub compression_threshold : Option ℤ

-- `Connection::new`.
abbrev pub new_connection : ServerConfig → ProtocolKind → Connection
new_connection config protocol = record {
  config = config;
  protocol = protocol;
  stream = [];
  buffer = [];
  state = State.handshake;
  compression_threshold = none;
}

-- The crate `flate2`: `ZlibEncoder` on a whole buffer, and `read_exact` of n bytes of a
-- `ZlibDecoder`.
pub record Zlib : Type 0 where
  pub deflate : Bytes → Option Bytes
  pub inflate : ℕ → Bytes → Option Bytes

-- What is compressed can be read back.
pub record IsZlib (z : Zlib) : Type 0 where
  pub inflate-deflate : (s d : Bytes) → z.deflate s ≡ some d → z.inflate (length s) d ≡ some s

-- The binary files that `include_bytes!` embeds: the registry codec of 1.20.1, and the entries of
-- one registry of 1.21.1 each.
pub record Assets : Type 0 where
  pub registry_bytes : Bytes
  pub dimension_type : Bytes
  pub worldgen_biome : Bytes
  pub chat_type : Bytes
  pub damage_type : Bytes
  pub trim_pattern : Bytes
  pub trim_material : Bytes
  pub wolf_variant : Bytes
  pub painting_variant : Bytes
  pub banner_pattern : Bytes
  pub enchantment : Bytes
  pub jukebox_song : Bytes
