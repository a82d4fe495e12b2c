-- ===== src/Proto/V1_21_1/C2s/Login.antt =====
-- crates/statik_proto/src/v1_21_1/c2s/login.rs.
use statik_rs.Prelude.{[], ◌∷◌}
use statik_rs.Prelude.Int.{pos}
use statik_rs.Core.State.{State}
use statik_rs.Core.Wire.{struct, option, raw_bytes, string, u8, uuid, var_int, vec}
use statik_rs.Derive.{Packet}

abbrev pub c2s_hello : Packet
c2s_hello = record {
  id = pos 0x00;
  state = State.login;
  fields = struct (("name", string) ∷ ("profile_id", uuid) ∷ []);
}

abbrev pub c2s_key : Packet
c2s_key = record {
  id = pos 0x01;
  state = State.login;
  fields = struct (("public_key", vec u8) ∷ ("verify_token", vec u8) ∷ []);
}

abbrev pub c2s_custom_query_answer : Packet
c2s_custom_query_answer = record {
  id = pos 0x02;
  state = State.login;
  fields = struct (("transaction_id", var_int) ∷ ("data", option raw_bytes) ∷ []);
}

abbrev pub c2s_login_acknowledged : Packet
c2s_login_acknowledged = record { id = pos 0x03; state = State.login; fields = struct [] }

abbrev pub c2s_login_cookie_response : Packet
c2s_login_cookie_response = record {
  id = pos 0x04;
  state = State.login;
  fields = struct (("key", string) ∷ ("payload", option raw_bytes) ∷ []);
}
