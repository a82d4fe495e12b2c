-- ===== src/Proto/V1_20_1/C2s.antt =====
-- crates/statik_proto/src/v1_20_1/c2s.rs: the packets that a 1.20.1 client sends.
pub mod Handshake
pub mod Login
pub mod Status
pub mod PlayLow
pub mod PlayHigh
pub mod Codec
use statik_rs.Prelude.{List, [], ◌∷◌}
use statik_rs.Derive.{Packet}
use Handshake
use Login
use Status
use PlayLow
use PlayHigh

pub data C2sPacket : Type 0 where
  handshake status_request ping login_start encryption_response : C2sPacket
  login_plugin_response accept_teleportation query_block_nbt change_difficulty : C2sPacket
  chat_ack chat_command chat_message chat_session_update client_command : C2sPacket
  client_information command_suggestion enchant_item container_click : C2sPacket
  container_close custom_payload edit_book query_entity_nbt interact : C2sPacket
  generate_structure keep_alive lock_difficulty player_pos player_pos_rot : C2sPacket
  player_rot player_status_only move_vehicle paddle_boat pick_item place_recipe : C2sPacket
  player_abilities player_action player_command player_input pong : C2sPacket
  recipe_book_change_settings recipe_book_seen_recipe rename_item resource_pack : C2sPacket
  seen_advancements select_trade set_beacon set_carried_item set_command_block : C2sPacket
  set_command_minecart set_creative_mode_slot set_jigsaw_block : C2sPacket
  set_structure_block sign_update swing spectate use_item_on use_item : C2sPacket

-- The packet of each variant.
abbrev pub packet : C2sPacket → Packet
packet C2sPacket.handshake = Handshake.c2s_handshake
packet C2sPacket.status_request = Status.c2s_status_request
packet C2sPacket.ping = Status.c2s_ping
packet C2sPacket.login_start = Login.c2s_login_start
packet C2sPacket.encryption_response = Login.c2s_encryption_response
packet C2sPacket.login_plugin_response = Login.c2s_login_plugin_response
packet C2sPacket.accept_teleportation = PlayLow.c2s_accept_teleportation
packet C2sPacket.query_block_nbt = PlayLow.c2s_query_block_nbt
packet C2sPacket.change_difficulty = PlayLow.c2s_change_difficulty
packet C2sPacket.chat_ack = PlayLow.c2s_chat_ack
packet C2sPacket.chat_command = PlayLow.c2s_chat_command
packet C2sPacket.chat_message = PlayLow.c2s_chat_message
packet C2sPacket.chat_session_update = PlayLow.c2s_chat_session_update
packet C2sPacket.client_command = PlayLow.c2s_client_command
packet C2sPacket.client_information = PlayLow.c2s_client_information
packet C2sPacket.command_suggestion = PlayLow.c2s_command_suggestion
packet C2sPacket.enchant_item = PlayLow.c2s_enchant_item
packet C2sPacket.container_click = PlayLow.c2s_container_click
packet C2sPacket.container_close = PlayLow.c2s_container_close
packet C2sPacket.custom_payload = PlayLow.c2s_custom_payload
packet C2sPacket.edit_book = PlayLow.c2s_edit_book
packet C2sPacket.query_entity_nbt = PlayLow.c2s_query_entity_nbt
packet C2sPacket.interact = PlayLow.c2s_interact
packet C2sPacket.generate_structure = PlayLow.c2s_generate_structure
packet C2sPacket.keep_alive = PlayLow.c2s_keep_alive
packet C2sPacket.lock_difficulty = PlayLow.c2s_lock_difficulty
packet C2sPacket.player_pos = PlayLow.c2s_player_pos
packet C2sPacket.player_pos_rot = PlayLow.c2s_player_pos_rot
packet C2sPacket.player_rot = PlayLow.c2s_player_rot
packet C2sPacket.player_status_only = PlayLow.c2s_player_status_only
packet C2sPacket.move_vehicle = PlayLow.c2s_move_vehicle
packet C2sPacket.paddle_boat = PlayLow.c2s_paddle_boat
packet C2sPacket.pick_item = PlayHigh.c2s_pick_item
packet C2sPacket.place_recipe = PlayHigh.c2s_place_recipe
packet C2sPacket.player_abilities = PlayHigh.c2s_player_abilities
packet C2sPacket.player_action = PlayHigh.c2s_player_action
packet C2sPacket.player_command = PlayHigh.c2s_player_command
packet C2sPacket.player_input = PlayHigh.c2s_player_input
packet C2sPacket.pong = PlayHigh.c2s_pong
packet C2sPacket.recipe_book_change_settings = PlayHigh.c2s_recipe_book_change_settings
packet C2sPacket.recipe_book_seen_recipe = PlayHigh.c2s_recipe_book_seen_recipe
packet C2sPacket.rename_item = PlayHigh.c2s_rename_item
packet C2sPacket.resource_pack = PlayHigh.c2s_resource_pack
packet C2sPacket.seen_advancements = PlayHigh.c2s_seen_advancements
packet C2sPacket.select_trade = PlayHigh.c2s_select_trade
packet C2sPacket.set_beacon = PlayHigh.c2s_set_beacon
packet C2sPacket.set_carried_item = PlayHigh.c2s_set_carried_item
packet C2sPacket.set_command_block = PlayHigh.c2s_set_command_block
packet C2sPacket.set_command_minecart = PlayHigh.c2s_set_command_minecart
packet C2sPacket.set_creative_mode_slot = PlayHigh.c2s_set_creative_mode_slot
packet C2sPacket.set_jigsaw_block = PlayHigh.c2s_set_jigsaw_block
packet C2sPacket.set_structure_block = PlayHigh.c2s_set_structure_block
packet C2sPacket.sign_update = PlayHigh.c2s_sign_update
packet C2sPacket.swing = PlayHigh.c2s_swing
packet C2sPacket.spectate = PlayHigh.c2s_spectate
packet C2sPacket.use_item_on = PlayHigh.c2s_use_item_on
packet C2sPacket.use_item = PlayHigh.c2s_use_item

-- The variants in the order in which `decode_in_state` tries them.
abbrev pub variants : List C2sPacket
variants =
    C2sPacket.handshake ∷ C2sPacket.status_request ∷ C2sPacket.ping ∷ C2sPacket.login_start
    ∷ C2sPacket.encryption_response ∷ C2sPacket.login_plugin_response
    ∷ C2sPacket.accept_teleportation ∷ C2sPacket.query_block_nbt ∷ C2sPacket.change_difficulty
    ∷ C2sPacket.chat_ack ∷ C2sPacket.chat_command ∷ C2sPacket.chat_message
    ∷ C2sPacket.chat_session_update ∷ C2sPacket.client_command ∷ C2sPacket.client_information
    ∷ C2sPacket.command_suggestion ∷ C2sPacket.enchant_item ∷ C2sPacket.container_click
    ∷ C2sPacket.container_close ∷ C2sPacket.custom_payload ∷ C2sPacket.edit_book
    ∷ C2sPacket.query_entity_nbt ∷ C2sPacket.interact ∷ C2sPacket.generate_structure
    ∷ C2sPacket.keep_alive ∷ C2sPacket.lock_difficulty ∷ C2sPacket.player_pos
    ∷ C2sPacket.player_pos_rot ∷ C2sPacket.player_rot ∷ C2sPacket.player_status_only
    ∷ C2sPacket.move_vehicle ∷ C2sPacket.paddle_boat ∷ C2sPacket.pick_item ∷ C2sPacket.place_recipe
    ∷ C2sPacket.player_abilities ∷ C2sPacket.player_action ∷ C2sPacket.player_command
    ∷ C2sPacket.player_input ∷ C2sPacket.pong ∷ C2sPacket.recipe_book_change_settings
    ∷ C2sPacket.recipe_book_seen_recipe ∷ C2sPacket.rename_item ∷ C2sPacket.resource_pack
    ∷ C2sPacket.seen_advancements ∷ C2sPacket.select_trade ∷ C2sPacket.set_beacon
    ∷ C2sPacket.set_carried_item ∷ C2sPacket.set_command_block ∷ C2sPacket.set_command_minecart
    ∷ C2sPacket.set_creative_mode_slot ∷ C2sPacket.set_jigsaw_block ∷ C2sPacket.set_structure_block
    ∷ C2sPacket.sign_update ∷ C2sPacket.swing ∷ C2sPacket.spectate ∷ C2sPacket.use_item_on
    ∷ C2sPacket.use_item ∷ []
