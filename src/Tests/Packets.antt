-- ===== src/Tests/Packets.antt =====
-- Packets of both versions on examples.
use statik_rs.Prelude.{◌≡◌, ◌≢◌, refl, true, false, none, [], ◌∷◌, arith}
use statik_rs.Prelude.Int.{pos}
use statik_rs.Core.Result.{ok, Bytes}
use statik_rs.Core.State.{State}
use statik_rs.Core.Utf8.{is_utf8}
use statik_rs.Derive.{Body, ◌&◌, encode_packet, decode_packet, decode_in_state}
use statik_rs.Derive.Group.{keys_distinct, decode_in_state-encode_packet}
use statik_rs.Proto.V1_20_1.S2c as S2c20
use statik_rs.Proto.V1_20_1.S2c.Codec.{s2c_packet_round_trip_20}
use statik_rs.Proto.V1_20_1.S2c.Play.{s2c_login}
use statik_rs.Proto.V1_20_1.S2c.Unreadable.{s2c_login_lem}
use statik_rs.Proto.V1_21_1.C2s as C2s21
use statik_rs.Proto.V1_21_1.S2c as S2c21
use statik_rs.Proto.V1_21_1.S2c.Codec.{s2c_packet_round_trip_21}
use statik_rs.Tests.Instances.{crates, crates-IsByteOrder}

distinct : keys_distinct C2s21.packet C2s21.variants ≡ true
unfolding keys_distinct
distinct = refl

decode_in_state-encode_packet_example :
    (bytes : Bytes) × (encode_packet ⦃c = crates⦄ (C2s21.packet C2s21.C2sPacket.ping) (pos 5, tt)
      ≡ ok bytes)
    × (decode_in_state ⦃c = crates⦄ C2s21.packet C2s21.variants State.status bytes
        ≡ ok (C2s21.C2sPacket.ping, (pos 5, tt)))
decode_in_state-encode_packet_example =
    decode_in_state-encode_packet C2s21.packet ⦃c = crates⦄ crates-IsByteOrder C2s21.variants
      distinct 2 C2s21.C2sPacket.ping (pos 5, tt) refl (omega arith, refl) (omega arith, tt)

pong-ne-login : S2c20.S2cPacket.pong ≢ S2c20.S2cPacket.login
pong-ne-login h = cc

s2c_packet_round_trip_20_example :
    (bytes : Bytes) × (encode_packet ⦃c = crates⦄ (S2c20.packet S2c20.S2cPacket.pong) (pos 9, tt)
      ≡ ok bytes)
    × (decode_in_state ⦃c = crates⦄ S2c20.packet S2c20.variants State.status bytes
        ≡ ok (S2c20.S2cPacket.pong, (pos 9, tt)))
s2c_packet_round_trip_20_example =
    s2c_packet_round_trip_20 ⦃c = crates⦄ crates-IsByteOrder S2c20.S2cPacket.pong (pos 9, tt)
      pong-ne-login (omega arith, tt)

letter : is_utf8 (0x61 ∷ []) ≡ true
unfolding is_utf8
letter = refl

s2c_packet_round_trip_21_example :
    (bytes : Bytes) × (encode_packet ⦃c = crates⦄
        (S2c21.packet S2c21.S2cPacket.custom_payload)
        (0x61 ∷ [], (1 ∷ 2 ∷ [], tt))
      ≡ ok bytes)
    × (decode_in_state ⦃c = crates⦄ S2c21.packet S2c21.variants State.configuration bytes
        ≡ ok (S2c21.S2cPacket.custom_payload, (0x61 ∷ [], (1 ∷ 2 ∷ [], tt))))
s2c_packet_round_trip_21_example =
    s2c_packet_round_trip_21 ⦃c = crates⦄ crates-IsByteOrder S2c21.S2cPacket.custom_payload
      (0x61 ∷ [], (1 ∷ 2 ∷ [], tt)) ((letter, omega arith), (tt, tt))

abbrev some_login : Body s2c_login
some_login =
    pos 0
    & false
    & pos 1
    & pos 1
    & []
    & []
    & []
    & []
    & pos 0
    & pos 20
    & pos 8
    & pos 8
    & true
    & false
    & false
    & false
    & none
    & pos 0
    & tt

s2c_login_lem_example : decode_packet ⦃c = crates⦄ s2c_login (1 ∷ 2 ∷ []) ≢ ok (some_login, [])
s2c_login_lem_example = s2c_login_lem ⦃c = crates⦄ (1 ∷ 2 ∷ []) (some_login, [])
