-- ===== src/Proto/V1_21_1/C2s.antt =====
-- crates/statik_proto/src/v1_21_1/c2s.rs: the packets that a 1.21.1 client sends.
pub mod Configuration
pub mod Handshake
pub mod Login
pub mod Play
pub mod Status
pub mod Codec
use statik_rs.Prelude.{List, [], ◌∷◌}
use statik_rs.Derive.{Packet}
use Configuration
use Handshake
use Login
use Play
use Status

pub data C2sPacket : Type 0 where
  handshake status_request ping hello key custom_query_answer login_acknowledged : C2sPacket
  cookie_response client_information configuration_cookie_response : C2sPacket
  configuration_custom_payload finish_configuration_ack configuration_keep_alive : C2sPacket
  pong_configuration resource_pack_response select_known_packs : C2sPacket
  accept_teleportation chunk_batch_received keep_alive player_pos player_pos_rot : C2sPacket
  player_rot player_flying : C2sPacket

-- The packet of each variant.
abbrev pub packet : C2sPacket → Packet
packet C2sPacket.handshake = Handshake.c2s_handshake
packet C2sPacket.status_request = Status.c2s_status_request
packet C2sPacket.ping = Status.c2s_ping
packet C2sPacket.hello = Login.c2s_hello
packet C2sPacket.key = Login.c2s_key
packet C2sPacket.custom_query_answer = Login.c2s_custom_query_answer
packet C2sPacket.login_acknowledged = Login.c2s_login_acknowledged
packet C2sPacket.cookie_response = Login.c2s_login_cookie_response
packet C2sPacket.client_information = Configuration.c2s_client_information
packet C2sPacket.configuration_cookie_response = Configuration.c2s_cookie_response
packet C2sPacket.configuration_custom_payload = Configuration.c2s_configuration_custom_payload
packet C2sPacket.finish_configuration_ack = Configuration.c2s_finish_configuration
packet C2sPacket.configuration_keep_alive = Configuration.c2s_configuration_keep_alive
packet C2sPacket.pong_configuration = Configuration.c2s_pong_configuration
packet C2sPacket.resource_pack_response = Configuration.c2s_resource_pack_response
packet C2sPacket.select_known_packs = Configuration.c2s_select_known_packs
packet C2sPacket.accept_teleportation = Play.c2s_accept_teleportation
packet C2sPacket.chunk_batch_received = Play.c2s_chunk_batch_received
packet C2sPacket.keep_alive = Play.c2s_keep_alive
packet C2sPacket.player_pos = Play.c2s_player_pos
packet C2sPacket.player_pos_rot = Play.c2s_player_pos_rot
packet C2sPacket.player_rot = Play.c2s_player_rot
packet C2sPacket.player_flying = Play.c2s_player_flying

-- The variants in the order in which `decode_in_state` tries them.
abbrev pub variants : List C2sPacket
variants =
    C2sPacket.handshake ∷ C2sPacket.status_request ∷ C2sPacket.ping ∷ C2sPacket.hello
    ∷ C2sPacket.key ∷ C2sPacket.custom_query_answer ∷ C2sPacket.login_acknowledged
    ∷ C2sPacket.cookie_response ∷ C2sPacket.client_information
    ∷ C2sPacket.configuration_cookie_response ∷ C2sPacket.configuration_custom_payload
    ∷ C2sPacket.finish_configuration_ack ∷ C2sPacket.configuration_keep_alive
    ∷ C2sPacket.pong_configuration ∷ C2sPacket.resource_pack_response ∷ C2sPacket.select_known_packs
    ∷ C2sPacket.accept_teleportation ∷ C2sPacket.chunk_batch_received ∷ C2sPacket.keep_alive
    ∷ C2sPacket.player_pos ∷ C2sPacket.player_pos_rot ∷ C2sPacket.player_rot
    ∷ C2sPacket.player_flying ∷ []
