-- ===== src/Core/Position/RoundTrip.antt =====
-- Packing and unpacking a block position.
use statik_rs.Prelude.{ℕ, ◌+◌, ◌*◌, ◌%◌, ◌^◌, ◌<◌, bit_or, ◌≡◌, arith, ◌∙◌, ap}
use mathlib.Core.Path.{ap₂}
use statik_rs.Prelude.Bits.{and_mask, or_high_low}
use statik_rs.Prelude.Int.{ℤ, pos, negsuc, IsInt, as_unsigned, as_signed, as_signed-IsInt}
use statik_rs.Core.Position.{
  BlockPos, x_mask, y_mask, z_mask, packed_field, to_packed, from_packed, to_i32, shift_right,
  shift_left,
}

-- The positions that the wire can carry: 26 bits for x and z, 12 for y, all signed.
abbrev pub InRange : BlockPos → Type 0
InRange p = IsInt (2 ^ 26) p.x × IsInt (2 ^ 12) p.y × IsInt (2 ^ 26) p.z

-- The bit pattern as a sum of its fields.
abbrev pub packed_sum : BlockPos → ℕ
packed_sum p =
    as_unsigned (2 ^ 64) p.x % 2 ^ 26 * 2 ^ 38
    + as_unsigned (2 ^ 64) p.z % 2 ^ 26 * 2 ^ 12
    + as_unsigned (2 ^ 64) p.y % 2 ^ 12

field_38 : (v : ℤ) → packed_field v x_mask 38 ≡ as_unsigned (2 ^ 64) v % 2 ^ 26 * 2 ^ 38
field_38 v = omega (arith, and_mask 26 (as_unsigned (2 ^ 64) v))

field_12 : (v : ℤ) → packed_field v z_mask 12 ≡ as_unsigned (2 ^ 64) v % 2 ^ 26 * 2 ^ 12
field_12 v = omega (arith, and_mask 26 (as_unsigned (2 ^ 64) v))

field_0 : (v : ℤ) → packed_field v y_mask 0 ≡ as_unsigned (2 ^ 64) v % 2 ^ 12
field_0 v = omega (arith, and_mask 12 (as_unsigned (2 ^ 64) v))

or_three :
    (x y z : ℕ)
    → y < 2 ^ 12
    → z < 2 ^ 26
    → bit_or (bit_or (x * 2 ^ 38) (z * 2 ^ 12)) y ≡ x * 2 ^ 38 + z * 2 ^ 12 + y
or_three x y z hy hz =
    ap (λ (t : ℕ). bit_or t y) (or_high_low 38 x (z * 2 ^ 12) (omega arith))
    ∙ ap (λ (t : ℕ). bit_or t y) (omega arith)
    ∙ or_high_low 12 (x * 2 ^ 26 + z) y hy
    ∙ omega arith

pub to_packed-packed_sum : (p : BlockPos) → to_packed p ≡ as_signed (2 ^ 64) (packed_sum p)
unfolding to_packed
to_packed-packed_sum p = ap (as_signed (2 ^ 64)) (
    ap₂ bit_or (ap₂ bit_or (field_38 p.x) (field_12 p.z)) (field_0 p.y)
    ∙ or_three _ (as_unsigned (2 ^ 64) p.y % 2 ^ 12) _ (omega arith) (omega arith))

-- Each field is had back from its place in the pattern.
abbrev pattern_of : ℕ → ℤ → ℕ
pattern_of m v = as_unsigned (2 ^ 64) v % m

x_back :
    (v : ℤ) (low : ℕ)
    → IsInt (2 ^ 26) v
    → low < 2 ^ 38
    → to_i32 (shift_right (as_signed (2 ^ 64) (pattern_of (2 ^ 26) v * 2 ^ 38 + low)) 38) ≡ v
x_back (pos n) low h fits = ground arith
x_back (negsuc n) low h fits = ground arith

y_back :
    (v : ℤ) (high : ℕ)
    → IsInt (2 ^ 12) v
    → high * 2 ^ 12 + pattern_of (2 ^ 12) v < 2 ^ 64
    → to_i32 (
        shift_right (shift_left (as_signed (2 ^ 64) (high * 2 ^ 12 + pattern_of (2 ^ 12) v)) 52) 52)
      ≡ v
y_back (pos n) high h fits = ground arith
y_back (negsuc n) high h fits = ground arith

z_back :
    (v : ℤ) (high low : ℕ)
    → IsInt (2 ^ 26) v
    → low < 2 ^ 12
    → high < 2 ^ 26
    → to_i32 (
        shift_right
          (shift_left
            (as_signed (2 ^ 64) (high * 2 ^ 38 + pattern_of (2 ^ 26) v * 2 ^ 12 + low))
            26)
          38)
      ≡ v
z_back (pos n) high low h fits fits' = ground arith
z_back (negsuc n) high low h fits fits' = ground arith

abbrev unpack_x : ℕ → ℤ
unpack_x n = to_i32 (shift_right (as_signed (2 ^ 64) n) 38)

abbrev unpack_y : ℕ → ℤ
unpack_y n = to_i32 (shift_right (shift_left (as_signed (2 ^ 64) n) 52) 52)

module _ (p : BlockPos) (h : InRange p) where
  x_of_sum : unpack_x (packed_sum p) ≡ p.x
  x_of_sum =
      ap unpack_x (omega arith)
      ∙ x_back p.x (pattern_of (2 ^ 26) p.z * 2 ^ 12 + pattern_of (2 ^ 12) p.y) h.0 (omega arith)

  y_of_sum : unpack_y (packed_sum p) ≡ p.y
  y_of_sum =
      ap unpack_y (omega arith)
      ∙ y_back p.y (pattern_of (2 ^ 26) p.x * 2 ^ 26 + pattern_of (2 ^ 26) p.z) h.1 (omega arith)

-- A block position whose fields fit the packed encoding (26 bits for x and z, 12 bits for y,
-- signed) is had back from its `i64`.
pub from_packed-to_packed : (p : BlockPos) → InRange p → from_packed (to_packed p) ≡ p
unfolding from_packed
from_packed-to_packed p h = rw (to_packed-packed_sum p) λ i. record {
  x = x_of_sum p h i;
  y = y_of_sum p h i;
  z =
      z_back p.z (pattern_of (2 ^ 26) p.x) (pattern_of (2 ^ 12) p.y) h.2 (omega arith) (omega arith)
        i;
}

pub to_packed-IsInt : (p : BlockPos) → IsInt (2 ^ 64) (to_packed p)
to_packed-IsInt p =
    rw (to_packed-packed_sum p)
      (as_signed-IsInt (2 ^ 64) (packed_sum p) (omega arith) (omega arith))
