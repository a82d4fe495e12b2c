-- ===== src/Server/Config.antt =====
-- crates/statik_server/src/config.rs: the configuration and its defaults.
use statik_rs.Prelude.{ℕ, Bool, false, Option, none}
use statik_rs.Prelude.Int.{ℤ, pos}
use statik_rs.Core.Result.{Bytes}
use statik_rs.Server.Text.{text}

pub record GeneralServerConfig : Type 0 where
  pub host : Bytes
  pub log_level : Bytes

pub record McServerConfig : Type 0 where
  pub port : ℕ
  pub version : Bytes
  pub max_players : ℤ
  pub hide_player_count : Bool
  pub motd : Bytes
  pub max_packet_size : ℕ
  pub icon : Option Bytes
  pub hidden : Bool
  pub disconnect_msg : Bytes

pub record ApiServerConfig : Type 0 where
  pub port : ℕ
  pub token : Option Bytes

-- A float is its bit pattern.
pub record Position : Type 0 where
  pub x : ℕ
  pub y : ℕ
  pub z : ℕ

pub record LimboConfig : Type 0 where
  pub position : Position
  pub gamemode : ℤ
  pub view_distance : ℤ
  pub simulation_distance : ℤ
  pub dimension : Bytes

pub record CompressionConfig : Type 0 where
  pub enabled : Bool
  pub threshold : ℤ

pub record ServerConfig : Type 0 where
  pub general : GeneralServerConfig
  pub mc : McServerConfig
  pub api : ApiServerConfig
  pub limbo : LimboConfig
  pub compression : CompressionConfig

abbrev pub default_general : GeneralServerConfig
default_general = record { host = text "0.0.0.0"; log_level = text "debug" }

abbrev pub default_mc : McServerConfig
default_mc = record {
  port = 25565;
  version = text "1.20.1";
  max_players = pos 20;
  hide_player_count = false;
  motd = text "A Statik server!";
  max_packet_size = 4096;
  icon = none;
  hidden = false;
  disconnect_msg = text "Disconnected from the server.";
}

abbrev pub default_api : ApiServerConfig
default_api = record { port = 8080; token = none }

-- The position is (0.5, 64.0, 0.5).
abbrev pub default_limbo : LimboConfig
default_limbo = record {
  position = record {
    x = 0x3fe0_0000_0000_0000;
    y = 0x4050_0000_0000_0000;
    z = 0x3fe0_0000_0000_0000;
  };
  gamemode = pos 1;
  view_distance = pos 8;
  simulation_distance = pos 8;
  dimension = text "minecraft:the_void";
}

abbrev pub default_compression : CompressionConfig
default_compression = record { enabled = false; threshold = pos 256 }

abbrev pub default_config : ServerConfig
default_config = record {
  general = default_general;
  mc = default_mc;
  api = default_api;
  limbo = default_limbo;
  compression = default_compression;
}
