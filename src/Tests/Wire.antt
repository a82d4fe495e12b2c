-- ===== src/Tests/Wire.antt =====
-- The codecs of crates/statik_core on examples.
use statik_rs.Prelude.{◌^◌, ◌≤◌, ◌≡◌, refl, true, [], ◌∷◌, ◌++◌, ◌⊎◌, length, arith}
use statik_rs.Prelude.Int.{pos, negsuc, IsInt}
use statik_rs.Core.Position.{BlockPos, to_packed, from_packed}
use statik_rs.Core.Position.RoundTrip.{from_packed-to_packed}
use statik_rs.Core.Result.{ok, err, Bytes, unexpected_eof}
use statik_rs.Core.Utf8.{is_utf8}
use statik_rs.Core.VarInt.{encode_varint, decode_varint, decode_loop}
use statik_rs.Core.VarInt.Decode.{Took, Truncated, TooLong, decode_varint_ok, decode_varint_err}
use statik_rs.Core.VarInt.RoundTrip.{decode_varint-encode_varint}
use statik_rs.Core.Wire.{Ty, encode, decode, struct, var_int, raw_bytes, i32}
use statik_rs.Core.Wire.Domain.{decode-encode-decode}
use statik_rs.Core.Wire.Local.{decode-IsLocal}
use statik_rs.Core.Wire.RoundTrip.{Survives, SurvivesInFrame, decode-encode_frame}
use statik_rs.Proto.Chunk.{write_var_int}
use statik_rs.Proto.Chunk.VarInts.{write_var_int-encode_varint}
use statik_rs.Tests.Instances.{crates, crates-IsByteOrder}

decode_varint-encode_varint_example :
    decode_varint (encode_varint (negsuc 299) ++ (7 ∷ [])) ≡ ok (negsuc 299, 7 ∷ [])
decode_varint-encode_varint_example =
    decode_varint-encode_varint (negsuc 299) (7 ∷ []) (omega arith)

abbrev three_hundred : Bytes
three_hundred = 0xac ∷ 0x02 ∷ 9 ∷ []

read_three_hundred : decode_varint three_hundred ≡ ok (pos 300, 9 ∷ [])
unfolding decode_varint decode_loop
read_three_hundred = refl

decode_varint_ok_example :
    (used : Bytes) × Took decode_varint three_hundred (pos 300) (9 ∷ []) used
    × (1 ≤ length used)
    × (length used ≤ 5)
    × IsInt (2 ^ 32) (pos 300)
decode_varint_ok_example = decode_varint_ok three_hundred (pos 300) (9 ∷ []) read_three_hundred

abbrev cut_off : Bytes
cut_off = 0x80 ∷ 0xff ∷ []

read_cut_off : decode_varint cut_off ≡ err unexpected_eof
unfolding decode_varint decode_loop
read_cut_off = refl

decode_varint_err_example : Truncated cut_off unexpected_eof ⊎ TooLong cut_off unexpected_eof
decode_varint_err_example = decode_varint_err cut_off unexpected_eof read_cut_off

abbrev block : BlockPos
block = record { x = negsuc 4; y = pos 70; z = pos 33554431 }

from_packed-to_packed_example : from_packed (to_packed block) ≡ block
from_packed-to_packed_example = from_packed-to_packed block (omega arith, omega arith, omega arith)

write_var_int-encode_varint_example : write_var_int (pos 300) ≡ encode_varint (pos 300)
write_var_int-encode_varint_example = write_var_int-encode_varint (pos 300)

ascii_text : is_utf8 (0x61 ∷ 0x62 ∷ []) ≡ true
unfolding is_utf8
ascii_text = refl

abbrev payload : Ty
payload = struct (("id", i32) ∷ ("data", raw_bytes) ∷ [])

decode-encode_frame_example :
    SurvivesInFrame
      (encode ⦃c = crates⦄ payload (negsuc 1, (5 ∷ 6 ∷ [], tt)))
      (decode ⦃c = crates⦄ payload)
      (negsuc 1, (5 ∷ 6 ∷ [], tt))
decode-encode_frame_example =
    decode-encode_frame ⦃c = crates⦄ crates-IsByteOrder payload (negsuc 1, (5 ∷ 6 ∷ [], tt)) refl
      (omega arith, (tt, tt))

-- A number in a needlessly long encoding, and a byte behind it.
abbrev long_form : Bytes
long_form = 0x82 ∷ 0x00 ∷ 9 ∷ []

read_long_form : decode ⦃c = crates⦄ var_int long_form ≡ ok (pos 2, 9 ∷ [])
unfolding decode decode_varint decode_loop
read_long_form = refl

decode-IsLocal_example :
    (used : Bytes) × Took (decode ⦃c = crates⦄ var_int) long_form (pos 2) (9 ∷ []) used
decode-IsLocal_example =
    decode-IsLocal ⦃c = crates⦄ var_int refl long_form (pos 2) (9 ∷ []) read_long_form

decode-encode-decode_example :
    Survives (encode ⦃c = crates⦄ var_int (pos 2)) (decode ⦃c = crates⦄ var_int) (pos 2)
decode-encode-decode_example =
    decode-encode-decode ⦃c = crates⦄ crates-IsByteOrder var_int long_form (pos 2) (9 ∷ []) refl
      refl read_long_form
