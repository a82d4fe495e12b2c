-- ===== src/Proto/V1_20_1/S2c/Codec.antt =====
-- Server packets of this version: every variant is decoded in its state.
use statik_rs.Prelude.{ℕ, ◌≡◌, ◌≢◌, refl, some, get_elem?, true, arith}
use statik_rs.Core.Crates.{Crates, IsByteOrder}
use statik_rs.Core.Result.{ok, Bytes}
use statik_rs.Core.Wire.Valid.{IsValid}
use statik_rs.Derive.{Body, encode_packet, decode_in_state}
use statik_rs.Derive.Group.{keys_distinct, IsWellFormed, decode_in_state-encode_packet}
use statik_rs.Proto.V1_20_1.S2c.{S2cPacket, packet, variants}

-- The place of a variant in the enum.
abbrev place : S2cPacket → ℕ
place S2cPacket.status_response = 0
place S2cPacket.pong = 1
place S2cPacket.disconnect = 2
place S2cPacket.encryption_request = 3
place S2cPacket.login_success = 4
place S2cPacket.set_compression = 5
place S2cPacket.login_plugin_request = 6
place S2cPacket.disconnect_play = 7
place S2cPacket.game_event = 8
place S2cPacket.keep_alive = 9
place S2cPacket.level_chunk_with_light = 10
place S2cPacket.login = 11
place S2cPacket.player_abilities = 12
place S2cPacket.player_position = 13
place S2cPacket.set_chunk_cache_center = 14
place S2cPacket.set_chunk_cache_radius = 15
place S2cPacket.set_default_spawn_position = 16

place_lem : (v : S2cPacket) → get_elem? variants (place v) ≡ some v
place_lem S2cPacket.status_response = refl
place_lem _ = refl

packet-IsWellFormed : (v : S2cPacket) → v ≢ S2cPacket.login → IsWellFormed (packet v)
packet-IsWellFormed S2cPacket.status_response h = (omega arith, refl)
packet-IsWellFormed S2cPacket.login h = absurd (h refl)
packet-IsWellFormed _ h = (omega arith, refl)

variants_distinct : keys_distinct packet variants ≡ true
unfolding keys_distinct
variants_distinct = refl

-- Every server packet of 1.20.1 but `S2CLogin` (in which a `RawBytes` stands in the middle),
-- with every valid body, is written with its id, and `decode_in_state` in the state of the
-- packet finds the same variant and body.
pub s2c_packet_round_trip_20 :
    ⦃c : Crates⦄
    → IsByteOrder c
    → (v : S2cPacket) (body : Body (packet v)) → v ≢ S2cPacket.login
    → IsValid (packet v).fields body
    → (bytes : Bytes) × (encode_packet (packet v) body ≡ ok bytes)
      × (decode_in_state packet variants (packet v).state bytes ≡ ok (v, body))
s2c_packet_round_trip_20 order v body other valid =
    decode_in_state-encode_packet packet order variants variants_distinct (place v) v body
      (place_lem v) (packet-IsWellFormed v other) valid
