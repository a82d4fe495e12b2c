-- ===== src/Proto/V1_21_1/S2c/Codec.antt =====
-- Server packets of this version: every variant is decoded in its state.
use statik_rs.Prelude.{ℕ, ◌≡◌, refl, some, get_elem?, true, arith}
use statik_rs.Core.Crates.{Crates, IsByteOrder}
use statik_rs.Core.Result.{ok, Bytes}
use statik_rs.Core.Wire.Valid.{IsValid}
use statik_rs.Derive.{Body, encode_packet, decode_in_state}
use statik_rs.Derive.Group.{keys_distinct, IsWellFormed, decode_in_state-encode_packet}
use statik_rs.Proto.V1_21_1.S2c.{S2cPacket, packet, variants}

-- The place of a variant in the enum.
abbrev place : S2cPacket → ℕ
place S2cPacket.status_response = 0
place S2cPacket.pong = 1
place S2cPacket.disconnect = 2
place S2cPacket.encryption_request = 3
place S2cPacket.login_success = 4
place S2cPacket.set_compression = 5
place S2cPacket.login_plugin_request = 6
place S2cPacket.custom_payload = 7
place S2cPacket.disconnect_configuration = 8
place S2cPacket.finish_configuration = 9
place S2cPacket.configuration_keep_alive = 10
place S2cPacket.ping_configuration = 11
place S2cPacket.registry_data = 12
place S2cPacket.feature_flags = 13
place S2cPacket.update_tags = 14
place S2cPacket.known_packs = 15
place S2cPacket.chunk_batch_start = 16
place S2cPacket.chunk_batch_finished = 17
place S2cPacket.disconnect_play = 18
place S2cPacket.game_event = 19
place S2cPacket.keep_alive = 20
place S2cPacket.level_chunk_with_light = 21
place S2cPacket.login = 22
place S2cPacket.player_abilities = 23
place S2cPacket.player_position = 24
place S2cPacket.set_chunk_cache_center = 25
place S2cPacket.set_chunk_cache_radius = 26
place S2cPacket.set_default_spawn_position = 27

place_lem : (v : S2cPacket) → get_elem? variants (place v) ≡ some v
place_lem S2cPacket.status_response = refl
place_lem _ = refl

packet-IsWellFormed : (v : S2cPacket) → IsWellFormed (packet v)
packet-IsWellFormed S2cPacket.status_response = (omega arith, refl)
packet-IsWellFormed _ = (omega arith, refl)

variants_distinct : keys_distinct packet variants ≡ true
unfolding keys_distinct
variants_distinct = refl

-- Every server packet of 1.21.1, with every valid body, is written with its id, and
-- `decode_in_state` in the state of the packet finds the same variant and body.
pub s2c_packet_round_trip_21 :
    ⦃c : Crates⦄
    → IsByteOrder c
    → (v : S2cPacket) (body : Body (packet v)) → IsValid (packet v).fields body
    → (bytes : Bytes) × (encode_packet (packet v) body ≡ ok bytes)
      × (decode_in_state packet variants (packet v).state bytes ≡ ok (v, body))
s2c_packet_round_trip_21 order v body valid =
    decode_in_state-encode_packet packet order variants variants_distinct (place v) v body
      (place_lem v) (packet-IsWellFormed v) valid
