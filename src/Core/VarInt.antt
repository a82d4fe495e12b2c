-- ===== src/Core/VarInt.antt =====
-- crates/statik_core/src/varint.rs. A `VarInt` wraps an `i32`; a writer is the list of the bytes
-- written, a reader the list of the bytes that are left.
pub mod Decode
pub mod Encode
pub mod RoundTrip
use mathlib.Core.WellFounded.{Acc}
use mathlib.Core.Logic.{dite}
use native.Mathlib.Decide.{dec_lt}
use statik_rs.Prelude.{ℕ, zero, suc, ◌+◌, ◌*◌, ◌/◌, ◌%◌, ◌^◌, ◌<◌, bit_and, bit_or, arith}
use statik_rs.Prelude.{List, [], ◌∷◌, ◌==◌, leb, if◌then◌else◌, lt_wf}
use statik_rs.Prelude.Int.{ℤ, as_unsigned, as_signed}
use statik_rs.Core.Result.{Result, ok, err, unexpected_eof, varint_too_long, Bytes}

abbrev pub segment_bits : ℕ
segment_bits = 0x7f

abbrev pub continue_bit : ℕ
continue_bit = 0x80

pub shift_shrinks : (value : ℕ) → 0 < value / 128 → value / 128 < value
shift_shrinks value h = omega arith

-- The loop of `encode` on the `u32` that is left: `part` is its low byte.
unfoldable pub encode_loop : (value : ℕ) → Acc ◌<◌ value → Bytes
unfolding dec_lt
encode_loop value (Acc.intro _ smaller) =
    let part = value % 2 ^ 8 in
    dite (dec_lt 0 (value / 2 ^ 7))
      (λ more.
        bit_or part continue_bit
        ∷ encode_loop (value / 2 ^ 7) (smaller _ (shift_shrinks value more)))
      (λ _. bit_and part segment_bits ∷ [])

-- `VarInt(v).encode`.
unfoldable pub encode_varint : ℤ → Bytes
encode_varint v = encode_loop (as_unsigned (2 ^ 32) v) (lt_wf.apply (as_unsigned (2 ^ 32) v))

-- The loop of `decode`: the accumulated `u32`, and the position of the next group.
unfoldable pub decode_loop : Bytes → ℕ → ℕ → Result (ℤ × Bytes)
decode_loop [] value position = err unexpected_eof
decode_loop (byte ∷ rest) value position =
    let value' = bit_or value (bit_and byte segment_bits * 2 ^ position % 2 ^ 32) in
    let more = decode_loop rest value' (position + 7) in
    if bit_and byte continue_bit == 0
    then ok (as_signed (2 ^ 32) value', rest)
    else if leb 35 (position + 7)
    then err varint_too_long
    else more

-- `VarInt::decode`.
unfoldable pub decode_varint : Bytes → Result (ℤ × Bytes)
decode_varint bytes = decode_loop bytes 0 0

-- `VarInt::from(length)` for a `usize`: `length as i32`.
abbrev pub from_usize : ℕ → ℤ
from_usize length = as_signed (2 ^ 32) length

-- `v as usize` for an `i32`: the sign is extended to 64 bits.
abbrev pub to_usize : ℤ → ℕ
to_usize v = as_unsigned (2 ^ 64) v
