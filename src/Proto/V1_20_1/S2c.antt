-- ===== src/Proto/V1_20_1/S2c.antt =====
-- crates/statik_proto/src/v1_20_1/s2c.rs: the packets that the server sends to a 1.20.1 client.
pub mod Login
pub mod Play
pub mod Status
pub mod Codec
pub mod Unreadable
use statik_rs.Prelude.{List, [], ◌∷◌}
use statik_rs.Derive.{Packet}
use Login
use Play
use Status

pub data S2cPacket : Type 0 where
  status_response pong disconnect encryption_request login_success : S2cPacket
  set_compression login_plugin_request disconnect_play game_event keep_alive : S2cPacket
  level_chunk_with_light login player_abilities player_position : S2cPacket
  set_chunk_cache_center set_chunk_cache_radius set_default_spawn_position : S2cPacket

-- The packet of each variant.
abbrev pub packet : S2cPacket → Packet
packet S2cPacket.status_response = Status.s2c_status_response
packet S2cPacket.pong = Status.s2c_pong
packet S2cPacket.disconnect = Login.s2c_disconnect
packet S2cPacket.encryption_request = Login.s2c_encryption_request
packet S2cPacket.login_success = Login.s2c_login_success
packet S2cPacket.set_compression = Login.s2c_set_compression
packet S2cPacket.login_plugin_request = Login.s2c_login_plugin_request
packet S2cPacket.disconnect_play = Play.s2c_disconnect_play
packet S2cPacket.game_event = Play.s2c_game_event
packet S2cPacket.keep_alive = Play.s2c_keep_alive
packet S2cPacket.level_chunk_with_light = Play.s2c_level_chunk_with_light
packet S2cPacket.login = Play.s2c_login
packet S2cPacket.player_abilities = Play.s2c_player_abilities
packet S2cPacket.player_position = Play.s2c_player_position
packet S2cPacket.set_chunk_cache_center = Play.s2c_set_chunk_cache_center
packet S2cPacket.set_chunk_cache_radius = Play.s2c_set_chunk_cache_radius
packet S2cPacket.set_default_spawn_position = Play.s2c_set_default_spawn_position

-- The variants in the order in which `decode_in_state` tries them.
abbrev pub variants : List S2cPacket
variants =
    S2cPacket.status_response ∷ S2cPacket.pong ∷ S2cPacket.disconnect ∷ S2cPacket.encryption_request
    ∷ S2cPacket.login_success ∷ S2cPacket.set_compression ∷ S2cPacket.login_plugin_request
    ∷ S2cPacket.disconnect_play ∷ S2cPacket.game_event ∷ S2cPacket.keep_alive
    ∷ S2cPacket.level_chunk_with_light ∷ S2cPacket.login ∷ S2cPacket.player_abilities
    ∷ S2cPacket.player_position ∷ S2cPacket.set_chunk_cache_center
    ∷ S2cPacket.set_chunk_cache_radius ∷ S2cPacket.set_default_spawn_position ∷ []
