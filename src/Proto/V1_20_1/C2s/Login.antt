-- ===== src/Proto/V1_20_1/C2s/Login.antt =====
-- crates/statik_proto/src/v1_20_1/c2s/login.rs.
use statik_rs.Prelude.{[], ◌∷◌}
use statik_rs.Prelude.Int.{pos}
use statik_rs.Core.State.{State}
use statik_rs.Core.Wire.{struct, option, raw_bytes, string, u8, uuid, var_int, vec}
use statik_rs.Derive.{Packet}

abbrev pub c2s_login_start : Packet
c2s_login_start = record {
  id = pos 0x00;
  state = State.login;
  fields = struct (("username", string) ∷ ("uuid", option uuid) ∷ []);
}

abbrev pub c2s_encryption_response : Packet
c2s_encryption_response = record {
  id = pos 0x01;
  state = State.login;
  fields = struct (("public_key", vec u8) ∷ ("verify_token", vec u8) ∷ []);
}

abbrev pub c2s_login_plugin_response : Packet
c2s_login_plugin_response = record {
  id = pos 0x02;
  state = State.login;
  fields = struct (("message_id", var_int) ∷ ("data", option raw_bytes) ∷ []);
}
