-- ===== src/Proto/V1_20_1/C2s/Codec.antt =====
-- Client packets of this version: every variant is decoded in its state.
use statik_rs.Prelude.{ℕ, ◌≡◌, refl, some, get_elem?, true, arith}
use statik_rs.Core.Crates.{Crates, IsByteOrder}
use statik_rs.Core.Result.{ok, Bytes}
use statik_rs.Core.Wire.Valid.{IsValid}
use statik_rs.Derive.{Body, encode_packet, decode_in_state}
use statik_rs.Derive.Group.{keys_distinct, IsWellFormed, decode_in_state-encode_packet}
use statik_rs.Proto.V1_20_1.C2s.{C2sPacket, packet, variants}

-- The place of a variant in the enum.
abbrev place : C2sPacket → ℕ
place C2sPacket.handshake = 0
place C2sPacket.status_request = 1
place C2sPacket.ping = 2
place C2sPacket.login_start = 3
place C2sPacket.encryption_response = 4
place C2sPacket.login_plugin_response = 5
place C2sPacket.accept_teleportation = 6
place C2sPacket.query_block_nbt = 7
place C2sPacket.change_difficulty = 8
place C2sPacket.chat_ack = 9
place C2sPacket.chat_command = 10
place C2sPacket.chat_message = 11
place C2sPacket.chat_session_update = 12
place C2sPacket.client_command = 13
place C2sPacket.client_information = 14
place C2sPacket.command_suggestion = 15
place C2sPacket.enchant_item = 16
place C2sPacket.container_click = 17
place C2sPacket.container_close = 18
place C2sPacket.custom_payload = 19
place C2sPacket.edit_book = 20
place C2sPacket.query_entity_nbt = 21
place C2sPacket.interact = 22
place C2sPacket.generate_structure = 23
place C2sPacket.keep_alive = 24
place C2sPacket.lock_difficulty = 25
place C2sPacket.player_pos = 26
place C2sPacket.player_pos_rot = 27
place C2sPacket.player_rot = 28
place C2sPacket.player_status_only = 29
place C2sPacket.move_vehicle = 30
place C2sPacket.paddle_boat = 31
place C2sPacket.pick_item = 32
place C2sPacket.place_recipe = 33
place C2sPacket.player_abilities = 34
place C2sPacket.player_action = 35
place C2sPacket.player_command = 36
place C2sPacket.player_input = 37
place C2sPacket.pong = 38
place C2sPacket.recipe_book_change_settings = 39
place C2sPacket.recipe_book_seen_recipe = 40
place C2sPacket.rename_item = 41
place C2sPacket.resource_pack = 42
place C2sPacket.seen_advancements = 43
place C2sPacket.select_trade = 44
place C2sPacket.set_beacon = 45
place C2sPacket.set_carried_item = 46
place C2sPacket.set_command_block = 47
place C2sPacket.set_command_minecart = 48
place C2sPacket.set_creative_mode_slot = 49
place C2sPacket.set_jigsaw_block = 50
place C2sPacket.set_structure_block = 51
place C2sPacket.sign_update = 52
place C2sPacket.swing = 53
place C2sPacket.spectate = 54
place C2sPacket.use_item_on = 55
place C2sPacket.use_item = 56

place_lem : (v : C2sPacket) → get_elem? variants (place v) ≡ some v
place_lem C2sPacket.handshake = refl
place_lem _ = refl

packet-IsWellFormed : (v : C2sPacket) → IsWellFormed (packet v)
packet-IsWellFormed C2sPacket.handshake = (omega arith, refl)
packet-IsWellFormed _ = (omega arith, refl)

variants_distinct : keys_distinct packet variants ≡ true
unfolding keys_distinct
variants_distinct = refl

-- Every client packet of 1.20.1, with every valid body, is written with its id, and
-- `decode_in_state` in the state of the packet finds the same variant and body.
pub c2s_packet_round_trip_20 :
    ⦃c : Crates⦄
    → IsByteOrder c
    → (v : C2sPacket) (body : Body (packet v)) → IsValid (packet v).fields body
    → (bytes : Bytes) × (encode_packet (packet v) body ≡ ok bytes)
      × (decode_in_state packet variants (packet v).state bytes ≡ ok (v, body))
c2s_packet_round_trip_20 order v body valid =
    decode_in_state-encode_packet packet order variants variants_distinct (place v) v body
      (place_lem v) (packet-IsWellFormed v) valid
