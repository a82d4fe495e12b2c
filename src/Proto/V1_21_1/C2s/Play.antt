-- ===== src/Proto/V1_21_1/C2s/Play.antt =====
-- crates/statik_proto/src/v1_21_1/c2s/play.rs.
use statik_rs.Prelude.{[], ◌∷◌}
use statik_rs.Prelude.Int.{pos}
use statik_rs.Core.State.{State}
use statik_rs.Core.Wire.{struct, boolean, f32, f64, i64, var_int}
use statik_rs.Derive.{Packet}

abbrev pub c2s_accept_teleportation : Packet
c2s_accept_teleportation = record {
  id = pos 0x00;
  state = State.play;
  fields = struct (("id", var_int) ∷ []);
}

abbrev pub c2s_chunk_batch_received : Packet
c2s_chunk_batch_received = record {
  id = pos 0x08;
  state = State.play;
  fields = struct (("desired_chunks_per_tick", f32) ∷ []);
}

abbrev pub c2s_keep_alive : Packet
c2s_keep_alive = record { id = pos 0x18; state = State.play; fields = struct (("id", i64) ∷ []) }

abbrev pub c2s_player_pos : Packet
c2s_player_pos = record {
  id = pos 0x1A;
  state = State.play;
  fields = struct (("x", f64) ∷ ("y", f64) ∷ ("z", f64) ∷ ("on_ground", boolean) ∷ []);
}

abbrev pub c2s_player_pos_rot : Packet
c2s_player_pos_rot = record {
  id = pos 0x1B;
  state = State.play;
  fields = struct (
      ("x", f64)
      ∷ ("y", f64)
      ∷ ("z", f64)
      ∷ ("y_rot", f32)
      ∷ ("x_rot", f32)
      ∷ ("on_ground", boolean)
      ∷ []);
}

abbrev pub c2s_player_rot : Packet
c2s_player_rot = record {
  id = pos 0x1C;
  state = State.play;
  fields = struct (("y_rot", f32) ∷ ("x_rot", f32) ∷ ("on_ground", boolean) ∷ []);
}

abbrev pub c2s_player_flying : Packet
c2s_player_flying = record {
  id = pos 0x1D;
  state = State.play;
  fields = struct (("on_ground", boolean) ∷ []);
}
