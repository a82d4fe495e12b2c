-- ===== src/Core/Position.antt =====
-- crates/statik_core/src/position.rs: a block position packed into an `i64`.
pub mod RoundTrip
use statik_rs.Prelude.{ℕ, ◌*◌, ◌/◌, ◌%◌, ◌^◌, bit_and, bit_or}
use statik_rs.Prelude.Int.{ℤ, pos, negsuc, as_unsigned, as_signed}

pub record BlockPos : Type 0 where
  pub x : ℤ
  pub y : ℤ
  pub z : ℤ

abbrev pub x_mask : ℕ
x_mask = 0x3ff_ffff

abbrev pub y_mask : ℕ
y_mask = 0xfff

abbrev pub z_mask : ℕ
z_mask = 0x3ff_ffff

-- `<<` and `>>` of an `i64`: the first drops the high bits, the second extends the sign.
abbrev pub shift_left : ℤ → ℕ → ℤ
shift_left v k = as_signed (2 ^ 64) (as_unsigned (2 ^ 64) v * 2 ^ k)

abbrev pub shift_right : ℤ → ℕ → ℤ
shift_right (pos n) k = pos (n / 2 ^ k)
shift_right (negsuc n) k = negsuc (n / 2 ^ k)

-- `v as i32`.
abbrev pub to_i32 : ℤ → ℤ
to_i32 v = as_signed (2 ^ 32) (as_unsigned (2 ^ 32) v)

-- `(v as i64 & mask) << k` as a bit pattern.
abbrev pub packed_field : ℤ → ℕ → ℕ → ℕ
packed_field v mask k = bit_and (as_unsigned (2 ^ 64) v) mask * 2 ^ k % 2 ^ 64

-- `BlockPos::to_packed`.
unfoldable pub to_packed : BlockPos → ℤ
to_packed p = as_signed (2 ^ 64) (
    bit_or (bit_or (packed_field p.x x_mask 38) (packed_field p.z z_mask 12))
      (packed_field p.y y_mask 0))

-- `BlockPos::from_packed`.
unfoldable pub from_packed : ℤ → BlockPos
from_packed v = record {
  x = to_i32 (shift_right v 38);
  y = to_i32 (shift_right (shift_left v 52) 52);
  z = to_i32 (shift_right (shift_left v 26) 38);
}
