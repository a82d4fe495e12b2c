-- ===== src/Core/BitSet.antt =====
-- crates/statik_core/src/bitset.rs.
pub mod RoundTrip
use statik_rs.Prelude.{ℕ, ◌-◌, ◌*◌, ◌^◌, List, [], ◌++◌, leb, length}
use statik_rs.Prelude.Int.{ℤ}
use statik_rs.Core.Crates.{Crates}
use statik_rs.Core.Result.{Result, ok, ◌>>=◌, ensure, Bytes, capacity_overflow}
use statik_rs.Core.VarInt.{encode_varint, decode_varint, from_usize, to_usize}
use statik_rs.Core.Wire.{i64, encode, decode, encode_elements, decode_elements}

-- The field `data`.
pub record BitSet : Type 0 where
  pub slots : List ℤ

abbrev pub empty : BitSet
empty = record { slots = [] }

abbrev pub from_slots : List ℤ → BitSet
from_slots slots = record { slots = slots }

-- The largest size of a vector in bytes, `isize::MAX`; `Vec::with_capacity` panics above it.
abbrev pub isize_max : ℕ
isize_max = 2 ^ 63 - 1

module _ ⦃c : Crates⦄ where
  unfoldable pub encode_bit_set : BitSet → Result Bytes
  encode_bit_set b = do
    body ← encode_elements (encode i64) b.slots
    ok (encode_varint (from_usize (length b.slots)) ++ body)

  abbrev pub decode_slots : ℕ → Bytes → Result (BitSet × Bytes)
  decode_slots len bytes =
      ensure (leb (len * 8) isize_max) capacity_overflow
        (do (slots, rest) ← decode_elements (decode i64) len bytes; ok (from_slots slots, rest))

  unfoldable pub decode_bit_set : Bytes → Result (BitSet × Bytes)
  decode_bit_set bytes = do
    (declared, rest) ← decode_varint bytes
    decode_slots (to_usize declared) rest
