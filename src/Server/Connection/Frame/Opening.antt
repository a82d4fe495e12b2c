-- ===== src/Server/Connection/Frame/Opening.antt =====
-- The body of a frame, and the payload that `try_parse_packet` finds in it.
use statik_rs.Prelude.{◌≤◌, ◌≡◌, refl, arith, ◌++◌, Option, none, some, length}
use statik_rs.Prelude.Int.{ℤ, pos}
use statik_rs.Core.Result.{ok, Bytes}
use statik_rs.Core.VarInt.{encode_varint, from_usize, to_usize}
use statik_rs.Core.VarInt.RoundTrip.{decode_varint-encode_varint}
use statik_rs.Server.Connection.{Zlib}
use statik_rs.Server.Connection.Frame.{max_packet_size, unpack}
use statik_rs.Server.Connection.Frame.RoundTrip.{from_usize_small}

module _ ⦃z : Zlib⦄ where
  -- A well-formed body with a payload: the payload itself where compression is off; a Data Length of
  -- 0 and the payload; or the length of a payload that reaches the threshold, and zlib data for it.
  pub data Opens : Option ℤ → Bytes → Bytes → Type 0 where
    plain : (payload : Bytes) → Opens none payload payload
    uncompressed :
        (threshold : ℤ) (payload : Bytes)
        → Opens (some threshold) (encode_varint (pos 0) ++ payload) payload
    compressed :
        (threshold : ℤ) (payload zipped : Bytes)
        → to_usize threshold ≤ length payload
        → 1 ≤ length payload
        → length payload ≤ max_packet_size
        → z.inflate (length payload) zipped ≡ some payload
        → Opens (some threshold) (encode_varint (from_usize (length payload)) ++ zipped) payload

  pub unpack-Opens :
      (threshold : Option ℤ) (body payload : Bytes)
      → Opens threshold body payload
      → unpack threshold body ≡ ok (some payload)
  unfolding unpack
  unpack-Opens threshold body payload (Opens.plain _) = refl
  unpack-Opens threshold body payload (Opens.uncompressed _ _) =
      rw (decode_varint-encode_varint (pos 0) payload (omega arith)) refl
  unpack-Opens threshold body payload (Opens.compressed t _ zipped reached some_byte small e) =
      let n = length payload in
      rw (from_usize_small n small, decode_varint-encode_varint (pos n) zipped (omega arith))
        (grind (arith, e))
