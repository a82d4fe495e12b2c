-- ===== src/Proto/V1_20_1/C2s/PlayHigh.antt =====
-- crates/statik_proto/src/v1_20_1/c2s/play.rs: the packets with ids from 0x1a on.
use statik_rs.Prelude.{[], ◌∷◌}
use statik_rs.Prelude.Int.{pos}
use statik_rs.Core.State.{State}
use statik_rs.Core.Wire.{struct, block_pos, boolean, f32, i16, i32, i8, option}
use statik_rs.Core.Wire.{raw_bytes, string, u8, uuid, var_int}
use statik_rs.Derive.{Packet}

abbrev pub c2s_pick_item : Packet
c2s_pick_item = record {
  id = pos 0x1A;
  state = State.play;
  fields = struct (("slot", var_int) ∷ []);
}

abbrev pub c2s_place_recipe : Packet
c2s_place_recipe = record {
  id = pos 0x1B;
  state = State.play;
  fields = struct (("window_id", i8) ∷ ("recipe", string) ∷ ("make_all", boolean) ∷ []);
}

abbrev pub c2s_player_abilities : Packet
c2s_player_abilities = record {
  id = pos 0x1C;
  state = State.play;
  fields = struct (("flags", i8) ∷ []);
}

abbrev pub c2s_player_action : Packet
c2s_player_action = record {
  id = pos 0x1D;
  state = State.play;
  fields =
      struct
        (("status", var_int) ∷ ("location", block_pos) ∷ ("face", i8) ∷ ("sequence", var_int) ∷ []);
}

abbrev pub c2s_player_command : Packet
c2s_player_command = record {
  id = pos 0x1E;
  state = State.play;
  fields = struct (("entity_id", var_int) ∷ ("action_id", var_int) ∷ ("jump_boost", var_int) ∷ []);
}

abbrev pub c2s_player_input : Packet
c2s_player_input = record {
  id = pos 0x1F;
  state = State.play;
  fields = struct (("sideways", f32) ∷ ("forward", f32) ∷ ("flags", u8) ∷ []);
}

abbrev pub c2s_pong : Packet
c2s_pong = record { id = pos 0x20; state = State.play; fields = struct (("id", i32) ∷ []) }

abbrev pub c2s_recipe_book_change_settings : Packet
c2s_recipe_book_change_settings = record {
  id = pos 0x21;
  state = State.play;
  fields = struct (("book_id", var_int) ∷ ("book_open", boolean) ∷ ("filter_active", boolean) ∷ []);
}

abbrev pub c2s_recipe_book_seen_recipe : Packet
c2s_recipe_book_seen_recipe = record {
  id = pos 0x22;
  state = State.play;
  fields = struct (("recipe_id", string) ∷ []);
}

abbrev pub c2s_rename_item : Packet
c2s_rename_item = record {
  id = pos 0x23;
  state = State.play;
  fields = struct (("name", string) ∷ []);
}

abbrev pub c2s_resource_pack : Packet
c2s_resource_pack = record {
  id = pos 0x24;
  state = State.play;
  fields = struct (("result", var_int) ∷ []);
}

abbrev pub c2s_seen_advancements : Packet
c2s_seen_advancements = record {
  id = pos 0x25;
  state = State.play;
  fields = struct (("action", var_int) ∷ ("rest", raw_bytes) ∷ []);
}

abbrev pub c2s_select_trade : Packet
c2s_select_trade = record {
  id = pos 0x26;
  state = State.play;
  fields = struct (("slot", var_int) ∷ []);
}

abbrev pub c2s_set_beacon : Packet
c2s_set_beacon = record {
  id = pos 0x27;
  state = State.play;
  fields = struct (("primary_effect", option var_int) ∷ ("secondary_effect", option var_int) ∷ []);
}

abbrev pub c2s_set_carried_item : Packet
c2s_set_carried_item = record {
  id = pos 0x28;
  state = State.play;
  fields = struct (("slot", i16) ∷ []);
}

abbrev pub c2s_set_command_block : Packet
c2s_set_command_block = record {
  id = pos 0x29;
  state = State.play;
  fields =
      struct
        (("location", block_pos) ∷ ("command", string) ∷ ("mode", var_int) ∷ ("flags", u8) ∷ []);
}

abbrev pub c2s_set_command_minecart : Packet
c2s_set_command_minecart = record {
  id = pos 0x2A;
  state = State.play;
  fields = struct (("entity_id", var_int) ∷ ("command", string) ∷ ("track_output", boolean) ∷ []);
}

abbrev pub c2s_set_creative_mode_slot : Packet
c2s_set_creative_mode_slot = record {
  id = pos 0x2B;
  state = State.play;
  fields = struct (("slot", i16) ∷ ("item", raw_bytes) ∷ []);
}

abbrev pub c2s_set_jigsaw_block : Packet
c2s_set_jigsaw_block = record {
  id = pos 0x2C;
  state = State.play;
  fields = struct (
      ("location", block_pos)
      ∷ ("name", string)
      ∷ ("target", string)
      ∷ ("pool", string)
      ∷ ("final_state", string)
      ∷ ("joint_type", string)
      ∷ []);
}

abbrev pub c2s_set_structure_block : Packet
c2s_set_structure_block = record {
  id = pos 0x2D;
  state = State.play;
  fields = struct (
      ("location", block_pos)
      ∷ ("action", var_int)
      ∷ ("mode", var_int)
      ∷ ("name", string)
      ∷ ("offset_x", i8)
      ∷ ("offset_y", i8)
      ∷ ("offset_z", i8)
      ∷ ("size_x", i8)
      ∷ ("size_y", i8)
      ∷ ("size_z", i8)
      ∷ ("mirror", var_int)
      ∷ ("rotation", var_int)
      ∷ ("metadata", string)
      ∷ ("integrity", f32)
      ∷ ("seed", var_int)
      ∷ ("flags", u8)
      ∷ []);
}

abbrev pub c2s_sign_update : Packet
c2s_sign_update = record {
  id = pos 0x2E;
  state = State.play;
  fields = struct (
      ("location", block_pos)
      ∷ ("is_front_text", boolean)
      ∷ ("line1", string)
      ∷ ("line2", string)
      ∷ ("line3", string)
      ∷ ("line4", string)
      ∷ []);
}

abbrev pub c2s_swing : Packet
c2s_swing = record { id = pos 0x2F; state = State.play; fields = struct (("hand", var_int) ∷ []) }

abbrev pub c2s_spectate : Packet
c2s_spectate = record { id = pos 0x30; state = State.play; fields = struct (("target", uuid) ∷ []) }

abbrev pub c2s_use_item_on : Packet
c2s_use_item_on = record {
  id = pos 0x31;
  state = State.play;
  fields = struct (
      ("hand", var_int)
      ∷ ("location", block_pos)
      ∷ ("direction", var_int)
      ∷ ("cursor_x", f32)
      ∷ ("cursor_y", f32)
      ∷ ("cursor_z", f32)
      ∷ ("inside_block", boolean)
      ∷ ("sequence", var_int)
      ∷ []);
}

abbrev pub c2s_use_item : Packet
c2s_use_item = record {
  id = pos 0x32;
  state = State.play;
  fields = struct (("hand", var_int) ∷ ("sequence", var_int) ∷ []);
}
