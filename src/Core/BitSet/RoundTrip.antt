-- ===== src/Core/BitSet/RoundTrip.antt =====
-- A `BitSet` over the wire.
use native.Mathlib.Nat.{mod-eq_of_lt}
use statik_rs.Prelude.{ℕ, ◌*◌, ◌^◌, ◌≡◌, refl, arith, leb, le→leb, true, false}
use statik_rs.Prelude.{List, ◌++◌, length}
use statik_rs.Prelude.Int.{ℤ, pos, negsuc, IsInt}
use statik_rs.Core.BitSet.{BitSet, isize_max, from_slots, encode_bit_set, decode_bit_set}
use statik_rs.Core.Crates.{Crates, IsByteOrder}
use statik_rs.Core.Result.{ok, err, ◌>>=◌, >>=-eq-ok, Bytes, capacity_overflow, err-ne-ok}
use statik_rs.Core.VarInt.{decode_varint, to_usize}
use statik_rs.Core.VarInt.Decode.{decode_varint_ok}
use statik_rs.Core.Wire.{i32_max, i64, vec, encode, decode, checked_length, decode_elements}
use statik_rs.Core.Wire.Valid.{IsValid}
use statik_rs.Core.Wire.RoundTrip.{decode-encode}

small_length : (n : ℕ) → IsInt (2 ^ 32) (pos n) → leb (to_usize (pos n) * 8) isize_max ≡ true
small_length n h = ground arith

same_length : (n : ℕ) → IsInt (2 ^ 32) (pos n) → to_usize (pos n) ≡ n
same_length n h = mod-eq_of_lt (omega arith)

huge_length : (n : ℕ) → IsInt (2 ^ 32) (negsuc n) → leb (to_usize (negsuc n) * 8) isize_max ≡ false
huge_length n h = ground arith

module _ ⦃c : Crates⦄ where
  -- Where the length that is read is negative, `decode_bit_set` fails with a capacity overflow,
  -- the panic of the source.
  pub decode_bit_set-negsuc :
      (bytes rest : Bytes) (n : ℕ)
      → decode_varint bytes ≡ ok (negsuc n, rest)
      → decode_bit_set bytes ≡ err capacity_overflow
  unfolding decode_bit_set
  decode_bit_set-negsuc bytes rest n h =
      let (used, took, low, high, fits) = decode_varint_ok bytes (negsuc n) rest h in
      rw (h, huge_length n fits) refl

  -- The reader of a vector, once its length is read.
  as_slots :
      (bytes rest : Bytes) (slots : List ℤ) (declared : ℤ) (behind : Bytes)
      → decode_varint bytes ≡ ok (declared, behind)
      → (checked_length declared >>= λ n. decode_elements (decode i64) n behind) ≡ ok (slots, rest)
      → decode_bit_set bytes ≡ ok (from_slots slots, rest)
  unfolding decode_bit_set
  as_slots bytes rest slots (negsuc n) behind read h = absurd (err-ne-ok h)
  as_slots bytes rest slots (pos n) behind read h =
      let (used, took, low, high, fits) = decode_varint_ok bytes (pos n) behind read in
      rw (read, small_length n fits, same_length n fits, h) refl

  -- A `BitSet` of at most 2147483647 slots, each an `i64`, is read back, whatever follows it.
  pub decode_bit_set-encode_bit_set :
      IsByteOrder c
      → (b : BitSet) → IsValid (vec i64) b.slots
      → (bytes : Bytes) × (encode_bit_set b ≡ ok bytes)
        × ((rest : Bytes) → decode_bit_set (bytes ++ rest) ≡ ok (b, rest))
  unfolding encode_bit_set encode decode
  decode_bit_set-encode_bit_set order b valid =
      let (bytes, written, back) = decode-encode order (vec i64) b.slots refl valid in
      (
        bytes,
        rw (le→leb (length b.slots) i32_max valid.0) at written,
        λ rest.
            let ((declared, behind), read, more) =
              >>=-eq-ok (decode_varint (bytes ++ rest)) _ (b.slots, rest) (back rest) in
            as_slots (bytes ++ rest) rest b.slots declared behind read more,
      )
