-- ===== src/Proto/V1_20_1/S2c/Unreadable.antt =====
-- `S2CLogin` of 1.20.1 has a `RawBytes` between other fields.
use Prim.Native.String.{String}
use statik_rs.Prelude.{ℕ, zero, suc, ◌≢◌}
use statik_rs.Core.Crates.{Crates}
use statik_rs.Core.Result.{ok, >>=-eq-ok, Bytes}
use statik_rs.Core.VarInt.{decode_varint, decode_loop}
use statik_rs.Core.Wire.{Ty, Val, field, raw_bytes, string, decode, decode_string}
use statik_rs.Derive.{Body, decode_packet}
use statik_rs.Proto.V1_20_1.S2c.Play.{s2c_login}

abbrev drop_fields : ℕ → Ty → Ty
drop_fields zero t = t
drop_fields (suc n) (field name t rest) = drop_fields n rest
drop_fields (suc n) t = t

module _ ⦃c : Crates⦄ where
  abbrev NeverDecodes : Ty → Type 0
  NeverDecodes t = (bytes : Bytes) (r : Val t × Bytes) → decode t bytes ≢ ok r

  -- A string cannot follow a `RawBytes`, which has taken everything.
  raw_then_string :
      (name name' : String) (t : Ty) → NeverDecodes (field name raw_bytes (field name' string t))
  unfolding decode decode_string decode_varint decode_loop
  raw_then_string name name' t bytes r h = cc

  field_before :
      (name : String) (t rest : Ty) → NeverDecodes rest → NeverDecodes (field name t rest)
  unfolding decode
  field_before name t rest never bytes r h =
      let ((v, bytes'), first, more) = >>=-eq-ok (decode t bytes) _ r h in
      let (others, second, made) = >>=-eq-ok (decode rest bytes') _ r more in
      never bytes' others second

  never_behind : (n : ℕ) (t : Ty) → NeverDecodes (drop_fields n t) → NeverDecodes t
  never_behind zero t h = h
  never_behind (suc n) (field name t rest) h = field_before name t rest (never_behind n rest h)
  never_behind (suc n) _ h = h

  -- No bytes whatever decode as `S2CLogin`, so that its encoding has no inverse.
  pub s2c_login_lem :
      (bytes : Bytes) (r : Body s2c_login × Bytes) → decode_packet s2c_login bytes ≢ ok r
  unfolding decode_packet
  s2c_login_lem =
      never_behind 5 s2c_login.fields
        (raw_then_string "registry_holder" "dimension_type" (drop_fields 7 s2c_login.fields))
