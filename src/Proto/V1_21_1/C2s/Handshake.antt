-- ===== src/Proto/V1_21_1/C2s/Handshake.antt =====
-- crates/statik_proto/src/v1_21_1/c2s/handshake.rs.
use statik_rs.Prelude.{[], ◌∷◌}
use statik_rs.Prelude.Int.{pos}
use statik_rs.Core.State.{State}
use statik_rs.Core.Wire.{struct, intent, string, u16, var_int}
use statik_rs.Derive.{Packet}

abbrev pub c2s_handshake : Packet
c2s_handshake = record {
  id = pos 0x00;
  state = State.handshake;
  fields = struct (
      ("protocol_version", var_int)
      ∷ ("server_address", string)
      ∷ ("server_port", u16)
      ∷ ("next_state", intent)
      ∷ []);
}
