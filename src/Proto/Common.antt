-- ===== src/Proto/Common.antt =====
-- crates/statik_proto/src/common.rs: the structs that both protocol versions share.
use statik_rs.Prelude.{[], ◌∷◌}
use statik_rs.Core.Wire.{Ty, struct, option, string, var_int, vec}

abbrev pub tag : Ty
tag = struct (("name", string) ∷ ("entries", vec var_int) ∷ [])

abbrev pub tag_group : Ty
tag_group = struct (("tag_type", string) ∷ ("tags", vec tag) ∷ [])

abbrev pub known_pack : Ty
known_pack = struct (("namespace", string) ∷ ("id", string) ∷ ("version", string) ∷ [])

abbrev pub property : Ty
property = struct (("name", string) ∷ ("value", string) ∷ ("signature", option string) ∷ [])
