-- ===== src/Proto/V1_20_1/S2c/Status.antt =====
-- crates/statik_proto/src/v1_20_1/s2c/status.rs.
use statik_rs.Prelude.{[], ◌∷◌}
use statik_rs.Prelude.Int.{pos}
use statik_rs.Core.State.{State}
use statik_rs.Core.Wire.{struct, i64, status_response}
use statik_rs.Derive.{Packet}

abbrev pub s2c_status_response : Packet
s2c_status_response = record {
  id = pos 0x00;
  state = State.status;
  fields = struct (("json_response", status_response) ∷ []);
}

abbrev pub s2c_pong : Packet
s2c_pong = record { id = pos 0x01; state = State.status; fields = struct (("payload", i64) ∷ []) }
