-- ===== src/Proto/V1_21_1/S2c/Play.antt =====
-- crates/statik_proto/src/v1_21_1/s2c/play.rs.
use statik_rs.Prelude.{[], ◌∷◌}
use statik_rs.Prelude.Int.{pos}
use statik_rs.Core.State.{State}
use statik_rs.Core.Wire.{Ty, struct, block_pos, boolean, chat, f32, f64, i32}
use statik_rs.Core.Wire.{i64, i8, option, raw_bytes, string, u8, var_int, vec}
use statik_rs.Derive.{Packet}

abbrev pub death_location : Ty
death_location = struct (("dimension_name", string) ∷ ("location", block_pos) ∷ [])

abbrev pub spawn_info : Ty
spawn_info = struct (
    ("dimension", var_int)
    ∷ ("name", string)
    ∷ ("hashed_seed", i64)
    ∷ ("gamemode", i8)
    ∷ ("previous_gamemode", u8)
    ∷ ("is_debug", boolean)
    ∷ ("is_flat", boolean)
    ∷ ("death", option death_location)
    ∷ ("portal_cooldown", var_int)
    ∷ [])

abbrev pub s2c_chunk_batch_finished : Packet
s2c_chunk_batch_finished = record {
  id = pos 0x0C;
  state = State.play;
  fields = struct (("batch_size", var_int) ∷ []);
}

abbrev pub s2c_chunk_batch_start : Packet
s2c_chunk_batch_start = record { id = pos 0x0D; state = State.play; fields = struct [] }

abbrev pub s2c_disconnect_play : Packet
s2c_disconnect_play = record {
  id = pos 0x1A;
  state = State.play;
  fields = struct (("reason", chat) ∷ []);
}

abbrev pub s2c_game_event : Packet
s2c_game_event = record {
  id = pos 0x22;
  state = State.play;
  fields = struct (("event", u8) ∷ ("param", f32) ∷ []);
}

abbrev pub s2c_keep_alive : Packet
s2c_keep_alive = record { id = pos 0x26; state = State.play; fields = struct (("id", i64) ∷ []) }

abbrev pub s2c_level_chunk_with_light : Packet
s2c_level_chunk_with_light = record {
  id = pos 0x27;
  state = State.play;
  fields = struct (("payload", raw_bytes) ∷ []);
}

abbrev pub s2c_login : Packet
s2c_login = record {
  id = pos 0x2B;
  state = State.play;
  fields = struct (
      ("entity_id", i32)
      ∷ ("is_hardcore", boolean)
      ∷ ("world_names", vec string)
      ∷ ("max_players", var_int)
      ∷ ("view_distance", var_int)
      ∷ ("simulation_distance", var_int)
      ∷ ("reduced_debug_info", boolean)
      ∷ ("enable_respawn_screen", boolean)
      ∷ ("do_limited_crafting", boolean)
      ∷ ("world_state", spawn_info)
      ∷ ("enforces_secure_chat", boolean)
      ∷ []);
}

abbrev pub s2c_player_abilities : Packet
s2c_player_abilities = record {
  id = pos 0x38;
  state = State.play;
  fields = struct (("flags", u8) ∷ ("flying_speed", f32) ∷ ("walking_speed", f32) ∷ []);
}

abbrev pub s2c_player_position : Packet
s2c_player_position = record {
  id = pos 0x40;
  state = State.play;
  fields = struct (
      ("x", f64)
      ∷ ("y", f64)
      ∷ ("z", f64)
      ∷ ("y_rot", f32)
      ∷ ("x_rot", f32)
      ∷ ("relative_arguments", u8)
      ∷ ("id", var_int)
      ∷ []);
}

abbrev pub s2c_set_chunk_cache_center : Packet
s2c_set_chunk_cache_center = record {
  id = pos 0x54;
  state = State.play;
  fields = struct (("x", var_int) ∷ ("z", var_int) ∷ []);
}

abbrev pub s2c_set_chunk_cache_radius : Packet
s2c_set_chunk_cache_radius = record {
  id = pos 0x55;
  state = State.play;
  fields = struct (("radius", var_int) ∷ []);
}

abbrev pub s2c_set_default_spawn_position : Packet
s2c_set_default_spawn_position = record {
  id = pos 0x56;
  state = State.play;
  fields = struct (("location", block_pos) ∷ ("angle", f32) ∷ []);
}
