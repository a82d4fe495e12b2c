-- ===== src/Proto/V1_20_1/C2s/Status.antt =====
-- crates/statik_proto/src/v1_20_1/c2s/status.rs.
use statik_rs.Prelude.{[], ◌∷◌}
use statik_rs.Prelude.Int.{pos}
use statik_rs.Core.State.{State}
use statik_rs.Core.Wire.{struct, i64}
use statik_rs.Derive.{Packet}

abbrev pub c2s_status_request : Packet
c2s_status_request = record { id = pos 0x00; state = State.status; fields = struct [] }

abbrev pub c2s_ping : Packet
c2s_ping = record { id = pos 0x01; state = State.status; fields = struct (("payload", i64) ∷ []) }
