-- ===== src/Proto/V1_21_1/C2s/Configuration.antt =====
-- crates/statik_proto/src/v1_21_1/c2s/configuration.rs.
use statik_rs.Prelude.{[], ◌∷◌}
use statik_rs.Prelude.Int.{pos}
use statik_rs.Core.State.{State}
use statik_rs.Core.Wire.{struct, boolean, i32, i64, i8, option, raw_bytes, string}
use statik_rs.Core.Wire.{u8, uuid, var_int, vec}
use statik_rs.Derive.{Packet}
use statik_rs.Proto.Common.{known_pack}

abbrev pub c2s_client_information : Packet
c2s_client_information = record {
  id = pos 0x00;
  state = State.configuration;
  fields = struct (
      ("locale", string)
      ∷ ("view_distance", i8)
      ∷ ("chat_mode", var_int)
      ∷ ("chat_colors", boolean)
      ∷ ("skin_parts", u8)
      ∷ ("main_hand", var_int)
      ∷ ("text_filtering_enabled", boolean)
      ∷ ("allows_listing", boolean)
      ∷ []);
}

abbrev pub c2s_cookie_response : Packet
c2s_cookie_response = record {
  id = pos 0x01;
  state = State.configuration;
  fields = struct (("key", string) ∷ ("payload", option raw_bytes) ∷ []);
}

abbrev pub c2s_configuration_custom_payload : Packet
c2s_configuration_custom_payload = record {
  id = pos 0x02;
  state = State.configuration;
  fields = struct (("channel", string) ∷ ("data", raw_bytes) ∷ []);
}

abbrev pub c2s_finish_configuration : Packet
c2s_finish_configuration = record { id = pos 0x03; state = State.configuration; fields = struct [] }

abbrev pub c2s_configuration_keep_alive : Packet
c2s_configuration_keep_alive = record {
  id = pos 0x04;
  state = State.configuration;
  fields = struct (("id", i64) ∷ []);
}

abbrev pub c2s_pong_configuration : Packet
c2s_pong_configuration = record {
  id = pos 0x05;
  state = State.configuration;
  fields = struct (("id", i32) ∷ []);
}

abbrev pub c2s_resource_pack_response : Packet
c2s_resource_pack_response = record {
  id = pos 0x06;
  state = State.configuration;
  fields = struct (("uuid", uuid) ∷ ("result", var_int) ∷ []);
}

abbrev pub c2s_select_known_packs : Packet
c2s_select_known_packs = record {
  id = pos 0x07;
  state = State.configuration;
  fields = struct (("known_packs", vec known_pack) ∷ []);
}
