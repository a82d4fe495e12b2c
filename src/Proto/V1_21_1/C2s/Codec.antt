-- ===== src/Proto/V1_21_1/C2s/Codec.antt =====
-- Client packets of this version: every variant is decoded in its state.
use statik_rs.Prelude.{ℕ, ◌≡◌, refl, some, get_elem?, true, arith}
use statik_rs.Core.Crates.{Crates, IsByteOrder}
use statik_rs.Core.Result.{ok, Bytes}
use statik_rs.Core.Wire.Valid.{IsValid}
use statik_rs.Derive.{Body, encode_packet, decode_in_state}
use statik_rs.Derive.Group.{keys_distinct, IsWellFormed, decode_in_state-encode_packet}
use statik_rs.Proto.V1_21_1.C2s.{C2sPacket, packet, variants}

-- The place of a variant in the enum.
abbrev place : C2sPacket → ℕ
place C2sPacket.handshake = 0
place C2sPacket.status_request = 1
place C2sPacket.ping = 2
place C2sPacket.hello = 3
place C2sPacket.key = 4
place C2sPacket.custom_query_answer = 5
place C2sPacket.login_acknowledged = 6
place C2sPacket.cookie_response = 7
place C2sPacket.client_information = 8
place C2sPacket.configuration_cookie_response = 9
place C2sPacket.configuration_custom_payload = 10
place C2sPacket.finish_configuration_ack = 11
place C2sPacket.configuration_keep_alive = 12
place C2sPacket.pong_configuration = 13
place C2sPacket.resource_pack_response = 14
place C2sPacket.select_known_packs = 15
place C2sPacket.accept_teleportation = 16
place C2sPacket.chunk_batch_received = 17
place C2sPacket.keep_alive = 18
place C2sPacket.player_pos = 19
place C2sPacket.player_pos_rot = 20
place C2sPacket.player_rot = 21
place C2sPacket.player_flying = 22

place_lem : (v : C2sPacket) → get_elem? variants (place v) ≡ some v
place_lem C2sPacket.handshake = refl
place_lem _ = refl

packet-IsWellFormed : (v : C2sPacket) → IsWellFormed (packet v)
packet-IsWellFormed C2sPacket.handshake = (omega arith, refl)
packet-IsWellFormed _ = (omega arith, refl)

variants_distinct : keys_distinct packet variants ≡ true
unfolding keys_distinct
variants_distinct = refl

-- Every client packet of 1.21.1, with every valid body, is written with its id, and
-- `decode_in_state` in the state of the packet finds the same variant and body.
pub c2s_packet_round_trip_21 :
    ⦃c : Crates⦄
    → IsByteOrder c
    → (v : C2sPacket) (body : Body (packet v)) → IsValid (packet v).fields body
    → (bytes : Bytes) × (encode_packet (packet v) body ≡ ok bytes)
      × (decode_in_state packet variants (packet v).state bytes ≡ ok (v, body))
c2s_packet_round_trip_21 order v body valid =
    decode_in_state-encode_packet packet order variants variants_distinct (place v) v body
      (place_lem v) (packet-IsWellFormed v) valid
