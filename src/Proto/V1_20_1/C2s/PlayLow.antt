-- ===== src/Proto/V1_20_1/C2s/PlayLow.antt =====
-- crates/statik_proto/src/v1_20_1/c2s/play.rs: the packets with ids below 0x1a.
use statik_rs.Prelude.{[], ◌∷◌}
use statik_rs.Prelude.Int.{pos}
use statik_rs.Core.State.{State}
use statik_rs.Core.Wire.{Ty, struct, block_pos, boolean, byte_array, f32, f64, i16}
use statik_rs.Core.Wire.{i64, i8, option, raw_bytes, string, u8, uuid, var_int}
use statik_rs.Core.Wire.{vec}
use statik_rs.Derive.{Packet}

abbrev pub c2s_accept_teleportation : Packet
c2s_accept_teleportation = record {
  id = pos 0x00;
  state = State.play;
  fields = struct (("id", var_int) ∷ []);
}

abbrev pub c2s_query_block_nbt : Packet
c2s_query_block_nbt = record {
  id = pos 0x01;
  state = State.play;
  fields = struct (("transaction_id", var_int) ∷ ("location", block_pos) ∷ []);
}

abbrev pub c2s_change_difficulty : Packet
c2s_change_difficulty = record {
  id = pos 0x02;
  state = State.play;
  fields = struct (("new_difficulty", u8) ∷ []);
}

abbrev pub c2s_chat_ack : Packet
c2s_chat_ack = record {
  id = pos 0x03;
  state = State.play;
  fields = struct (("count", var_int) ∷ []);
}

abbrev pub argument_signature : Ty
argument_signature = struct (("argument_name", string) ∷ ("signature", byte_array 256) ∷ [])

abbrev pub c2s_chat_command : Packet
c2s_chat_command = record {
  id = pos 0x04;
  state = State.play;
  fields = struct (
      ("command", string)
      ∷ ("timestamp", i64)
      ∷ ("salt", i64)
      ∷ ("argument_signatures", vec argument_signature)
      ∷ ("message_count", var_int)
      ∷ ("acknowledged", byte_array 3)
      ∷ []);
}

abbrev pub c2s_chat_message : Packet
c2s_chat_message = record {
  id = pos 0x05;
  state = State.play;
  fields = struct (
      ("message", string)
      ∷ ("timestamp", i64)
      ∷ ("salt", i64)
      ∷ ("signature", option (byte_array 256))
      ∷ ("offset", var_int)
      ∷ ("acknowledged", byte_array 3)
      ∷ []);
}

abbrev pub c2s_chat_session_update : Packet
c2s_chat_session_update = record {
  id = pos 0x06;
  state = State.play;
  fields = struct (
      ("session_uuid", uuid)
      ∷ ("expire_time", i64)
      ∷ ("public_key", vec u8)
      ∷ ("signature", vec u8)
      ∷ []);
}

abbrev pub c2s_client_command : Packet
c2s_client_command = record {
  id = pos 0x07;
  state = State.play;
  fields = struct (("action_id", var_int) ∷ []);
}

abbrev pub c2s_client_information : Packet
c2s_client_information = record {
  id = pos 0x08;
  state = State.play;
  fields = struct (
      ("language", string)
      ∷ ("view_distance", i8)
      ∷ ("chat_visibility", var_int)
      ∷ ("chat_colors", boolean)
      ∷ ("skin_parts", u8)
      ∷ ("main_hand", var_int)
      ∷ ("text_filtering_enabled", boolean)
      ∷ ("allows_listing", boolean)
      ∷ []);
}

abbrev pub c2s_command_suggestion : Packet
c2s_command_suggestion = record {
  id = pos 0x09;
  state = State.play;
  fields = struct (("transaction_id", var_int) ∷ ("text", string) ∷ []);
}

abbrev pub c2s_enchant_item : Packet
c2s_enchant_item = record {
  id = pos 0x0A;
  state = State.play;
  fields = struct (("window_id", i8) ∷ ("enchantment", i8) ∷ []);
}

abbrev pub c2s_container_click : Packet
c2s_container_click = record {
  id = pos 0x0B;
  state = State.play;
  fields = struct (
      ("window_id", u8)
      ∷ ("state_id", var_int)
      ∷ ("slot", i16)
      ∷ ("mouse_button", i8)
      ∷ ("mode", var_int)
      ∷ ("rest", raw_bytes)
      ∷ []);
}

abbrev pub c2s_container_close : Packet
c2s_container_close = record {
  id = pos 0x0C;
  state = State.play;
  fields = struct (("window_id", u8) ∷ []);
}

abbrev pub c2s_custom_payload : Packet
c2s_custom_payload = record {
  id = pos 0x0D;
  state = State.play;
  fields = struct (("channel", string) ∷ ("data", raw_bytes) ∷ []);
}

abbrev pub c2s_edit_book : Packet
c2s_edit_book = record {
  id = pos 0x0E;
  state = State.play;
  fields = struct (("hand", var_int) ∷ ("pages", vec string) ∷ ("title", option string) ∷ []);
}

abbrev pub c2s_query_entity_nbt : Packet
c2s_query_entity_nbt = record {
  id = pos 0x0F;
  state = State.play;
  fields = struct (("transaction_id", var_int) ∷ ("entity_id", var_int) ∷ []);
}

abbrev pub c2s_interact : Packet
c2s_interact = record {
  id = pos 0x10;
  state = State.play;
  fields = struct (("target", var_int) ∷ ("mouse", var_int) ∷ ("rest", raw_bytes) ∷ []);
}

abbrev pub c2s_generate_structure : Packet
c2s_generate_structure = record {
  id = pos 0x11;
  state = State.play;
  fields = struct (("location", block_pos) ∷ ("levels", var_int) ∷ ("keep_jigsaws", boolean) ∷ []);
}

abbrev pub c2s_keep_alive : Packet
c2s_keep_alive = record { id = pos 0x12; state = State.play; fields = struct (("id", i64) ∷ []) }

abbrev pub c2s_lock_difficulty : Packet
c2s_lock_difficulty = record {
  id = pos 0x13;
  state = State.play;
  fields = struct (("locked", boolean) ∷ []);
}

abbrev pub c2s_player_pos : Packet
c2s_player_pos = record {
  id = pos 0x14;
  state = State.play;
  fields = struct (("x", f64) ∷ ("y", f64) ∷ ("z", f64) ∷ ("on_ground", boolean) ∷ []);
}

abbrev pub c2s_player_pos_rot : Packet
c2s_player_pos_rot = record {
  id = pos 0x15;
  state = State.play;
  fields = struct (
      ("x", f64)
      ∷ ("y", f64)
      ∷ ("z", f64)
      ∷ ("y_rot", f32)
      ∷ ("x_rot", f32)
      ∷ ("on_ground", boolean)
      ∷ []);
}

abbrev pub c2s_player_rot : Packet
c2s_player_rot = record {
  id = pos 0x16;
  state = State.play;
  fields = struct (("y_rot", f32) ∷ ("x_rot", f32) ∷ ("on_ground", boolean) ∷ []);
}

abbrev pub c2s_player_status_only : Packet
c2s_player_status_only = record {
  id = pos 0x17;
  state = State.play;
  fields = struct (("on_ground", boolean) ∷ []);
}

abbrev pub c2s_move_vehicle : Packet
c2s_move_vehicle = record {
  id = pos 0x18;
  state = State.play;
  fields = struct (("x", f64) ∷ ("y", f64) ∷ ("z", f64) ∷ ("y_rot", f32) ∷ ("x_rot", f32) ∷ []);
}

abbrev pub c2s_paddle_boat : Packet
c2s_paddle_boat = record {
  id = pos 0x19;
  state = State.play;
  fields = struct (("left_paddle", boolean) ∷ ("right_paddle", boolean) ∷ []);
}
