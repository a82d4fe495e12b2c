-- ===== src/Proto/V1_20_1/S2c/Login.antt =====
-- crates/statik_proto/src/v1_20_1/s2c/login.rs.
use statik_rs.Prelude.{[], ◌∷◌}
use statik_rs.Prelude.Int.{pos}
use statik_rs.Core.State.{State}
use statik_rs.Core.Wire.{struct, chat, string, u8, uuid, var_int, vec}
use statik_rs.Derive.{Packet}
use statik_rs.Proto.Common.{property}

abbrev pub s2c_disconnect : Packet
s2c_disconnect = record {
  id = pos 0x00;
  state = State.login;
  fields = struct (("reason", chat) ∷ []);
}

abbrev pub s2c_encryption_request : Packet
s2c_encryption_request = record {
  id = pos 0x01;
  state = State.login;
  fields = struct (("server_id", string) ∷ ("public_key", vec u8) ∷ ("verify_token", vec u8) ∷ []);
}

abbrev pub s2c_login_success : Packet
s2c_login_success = record {
  id = pos 0x02;
  state = State.login;
  fields = struct (("uuid", uuid) ∷ ("username", string) ∷ ("properties", vec property) ∷ []);
}

abbrev pub s2c_set_compression : Packet
s2c_set_compression = record {
  id = pos 0x03;
  state = State.login;
  fields = struct (("threshold", var_int) ∷ []);
}

abbrev pub s2c_login_plugin_request : Packet
s2c_login_plugin_request = record {
  id = pos 0x04;
  state = State.login;
  fields = struct (("message_id", var_int) ∷ ("channel", string) ∷ ("data", vec u8) ∷ []);
}
