-- ===== src/Proto/V1_20_1/S2c/Play.antt =====
-- crates/statik_proto/src/v1_20_1/s2c/play.rs.
use statik_rs.Prelude.{[], ◌∷◌}
use statik_rs.Prelude.Int.{pos}
use statik_rs.Core.State.{State}
use statik_rs.Core.Wire.{struct, block_pos, boolean, chat, f32, f64, i32, i64}
use statik_rs.Core.Wire.{option, raw_bytes, string, u8, var_int, vec}
use statik_rs.Derive.{Packet}

abbrev pub s2c_disconnect_play : Packet
s2c_disconnect_play = record {
  id = pos 0x1A;
  state = State.play;
  fields = struct (("reason", chat) ∷ []);
}

abbrev pub s2c_game_event : Packet
s2c_game_event = record {
  id = pos 0x1F;
  state = State.play;
  fields = struct (("event", u8) ∷ ("param", f32) ∷ []);
}

abbrev pub s2c_keep_alive : Packet
s2c_keep_alive = record { id = pos 0x23; state = State.play; fields = struct (("id", i64) ∷ []) }

abbrev pub s2c_level_chunk_with_light : Packet
s2c_level_chunk_with_light = record {
  id = pos 0x24;
  state = State.play;
  fields = struct (("payload", raw_bytes) ∷ []);
}

abbrev pub s2c_login : Packet
s2c_login = record {
  id = pos 0x28;
  state = State.play;
  fields = struct (
      ("player_id", i32)
      ∷ ("hardcore", boolean)
      ∷ ("game_type", var_int)
      ∷ ("previous_game_type", var_int)
      ∷ ("levels", vec string)
      ∷ ("registry_holder", raw_bytes)
      ∷ ("dimension_type", string)
      ∷ ("dimension", string)
      ∷ ("seed", i64)
      ∷ ("max_players", var_int)
      ∷ ("chunk_radius", var_int)
      ∷ ("simulation_distance", var_int)
      ∷ ("reduced_debug_info", boolean)
      ∷ ("show_death_screen", boolean)
      ∷ ("is_debug", boolean)
      ∷ ("is_flat", boolean)
      ∷ ("last_death_location", option raw_bytes)
      ∷ ("portal_cooldown", var_int)
      ∷ []);
}

abbrev pub s2c_player_abilities : Packet
s2c_player_abilities = record {
  id = pos 0x34;
  state = State.play;
  fields = struct (("flags", u8) ∷ ("flying_speed", f32) ∷ ("walking_speed", f32) ∷ []);
}

abbrev pub s2c_player_position : Packet
s2c_player_position = record {
  id = pos 0x3C;
  state = State.play;
  fields = struct (
      ("x", f64)
      ∷ ("y", f64)
      ∷ ("z", f64)
      ∷ ("y_rot", f32)
      ∷ ("x_rot", f32)
      ∷ ("relative_arguments", u8)
      ∷ ("id", var_int)
      ∷ []);
}

abbrev pub s2c_set_chunk_cache_center : Packet
s2c_set_chunk_cache_center = record {
  id = pos 0x4E;
  state = State.play;
  fields = struct (("x", var_int) ∷ ("z", var_int) ∷ []);
}

abbrev pub s2c_set_chunk_cache_radius : Packet
s2c_set_chunk_cache_radius = record {
  id = pos 0x4F;
  state = State.play;
  fields = struct (("radius", var_int) ∷ []);
}

abbrev pub s2c_set_default_spawn_position : Packet
s2c_set_default_spawn_position = record {
  id = pos 0x50;
  state = State.play;
  fields = struct (("location", block_pos) ∷ ("angle", f32) ∷ []);
}
