-- ===== src/Proto/V1_21_1/S2c/Configuration.antt =====
-- crates/statik_proto/src/v1_21_1/s2c/configuration.rs.
use statik_rs.Prelude.{[], ◌∷◌}
use statik_rs.Prelude.Int.{pos}
use statik_rs.Core.State.{State}
use statik_rs.Core.Wire.{struct, chat, i32, i64, raw_bytes, string, vec}
use statik_rs.Derive.{Packet}
use statik_rs.Proto.Common.{known_pack, tag_group}

abbrev pub s2c_custom_payload : Packet
s2c_custom_payload = record {
  id = pos 0x01;
  state = State.configuration;
  fields = struct (("channel", string) ∷ ("data", raw_bytes) ∷ []);
}

abbrev pub s2c_disconnect_configuration : Packet
s2c_disconnect_configuration = record {
  id = pos 0x02;
  state = State.configuration;
  fields = struct (("reason", chat) ∷ []);
}

abbrev pub s2c_finish_configuration : Packet
s2c_finish_configuration = record { id = pos 0x03; state = State.configuration; fields = struct [] }

abbrev pub s2c_configuration_keep_alive : Packet
s2c_configuration_keep_alive = record {
  id = pos 0x04;
  state = State.configuration;
  fields = struct (("keep_alive_id", i64) ∷ []);
}

abbrev pub s2c_ping_configuration : Packet
s2c_ping_configuration = record {
  id = pos 0x05;
  state = State.configuration;
  fields = struct (("id", i32) ∷ []);
}

abbrev pub s2c_registry_data : Packet
s2c_registry_data = record {
  id = pos 0x07;
  state = State.configuration;
  fields = struct (("registry_id", string) ∷ ("data", raw_bytes) ∷ []);
}

abbrev pub s2c_feature_flags : Packet
s2c_feature_flags = record {
  id = pos 0x0C;
  state = State.configuration;
  fields = struct (("features", vec string) ∷ []);
}

abbrev pub s2c_update_tags : Packet
s2c_update_tags = record {
  id = pos 0x0D;
  state = State.configuration;
  fields = struct (("tags", vec tag_group) ∷ []);
}

abbrev pub s2c_known_packs : Packet
s2c_known_packs = record {
  id = pos 0x0E;
  state = State.configuration;
  fields = struct (("packs", vec known_pack) ∷ []);
}
