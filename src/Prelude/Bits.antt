-- ===== src/Prelude/Bits.antt =====
-- `|` of disjoint bit fields and `&` with a mask of low bits as arithmetic, at every width.
use Prim.Native.Nat.{ℕ, zero, suc, ◌+◌, ◌-◌, ◌*◌, ◌/◌, ◌%◌, ◌^◌, ◌≤◌, ◌<◌, min, max}
use Prim.Native.Nat.{bit_and, bit_or, digits, bit_and-bitwise, bit_or-bitwise}
use mathlib.Core.Path.{◌≡◌, refl, ap}
use mathlib.Core.Bool.{Bool, true, ◌&&◌}
use mathlib.Core.WellFounded
use native.Mathlib.Nat.{pow-suc, one-le-pow}
use native.Mathlib.Omega.{arith}
use statik_rs.Prelude.Order.{lt_wf}
use statik_rs.Prelude.Tests.{◌==◌}

-- Spare fuel does not change a digit recursion.
module _ (base : ℕ → ℕ) (op : ℕ → ℕ → ℕ) where
  digits_spare :
      (x y fuel spare : ℕ)
      → x ≤ fuel
      → x ≤ spare
      → digits base op fuel x y ≡ digits base op spare x y
  digits_spare zero y zero zero h k = refl
  digits_spare zero y zero (suc spare) h k = refl
  digits_spare zero y (suc fuel) zero h k = refl
  digits_spare zero y (suc fuel) (suc spare) h k = refl
  digits_spare (suc x) y zero spare h k = absurd (omega arith)
  digits_spare (suc x) y (suc fuel) zero h k = absurd (omega arith)
  digits_spare (suc x) y (suc fuel) (suc spare) h k =
      ap (λ (t : ℕ). t * 2 + op (suc x % 2) (y % 2))
        (digits_spare (suc x / 2) (y / 2) fuel spare (omega arith) (omega arith))

-- The operations by their lowest binary digit.
pub or_halves : (x y : ℕ) → bit_or x y ≡ bit_or (x / 2) (y / 2) * 2 + max (x % 2) (y % 2)
or_halves zero y = omega (arith, bit_or-bitwise 0 y, bit_or-bitwise 0 (y / 2))
or_halves (suc x) y =
    let same =
      digits_spare (λ b. b) max (suc x / 2) (y / 2) x (suc x / 2) (omega arith) (omega arith) in
    omega (arith, bit_or-bitwise (suc x) y, bit_or-bitwise (suc x / 2) (y / 2), same)

pub and_halves : (x y : ℕ) → bit_and x y ≡ bit_and (x / 2) (y / 2) * 2 + min (x % 2) (y % 2)
and_halves zero y = omega (arith, bit_and-bitwise 0 y, bit_and-bitwise 0 (y / 2))
and_halves (suc x) y =
    let same =
      digits_spare (λ b. 0) min (suc x / 2) (y / 2) x (suc x / 2) (omega arith) (omega arith) in
    omega (arith, bit_and-bitwise (suc x) y, bit_and-bitwise (suc x / 2) (y / 2), same)

pub zero-or : (y : ℕ) → bit_or 0 y ≡ y
zero-or y = bit_or-bitwise 0 y

abbrev OrZero : ℕ → Type 0
OrZero x = bit_or x 0 ≡ x

or-zero_step : (x : ℕ) → ((h : ℕ) → h < x → OrZero h) → OrZero x
or-zero_step zero ih = zero-or 0
or-zero_step (suc x) ih = omega (arith, or_halves (suc x) 0, ih (suc x / 2) (omega arith))

pub or-zero : (x : ℕ) → bit_or x 0 ≡ x
or-zero x = WellFounded.induction lt_wf {C = OrZero} x or-zero_step

pub and_zero_left : (y : ℕ) → bit_and 0 y ≡ 0
and_zero_left y = bit_and-bitwise 0 y

abbrev AndZero : ℕ → Type 0
AndZero x = bit_and x 0 ≡ 0

and-zero_step : (x : ℕ) → ((h : ℕ) → h < x → AndZero h) → AndZero x
and-zero_step zero ih = bit_and-bitwise 0 0
and-zero_step (suc x) ih = omega (arith, and_halves (suc x) 0, ih (suc x / 2) (omega arith))

and-zero : (x : ℕ) → bit_and x 0 ≡ 0
and-zero x = WellFounded.induction lt_wf {C = AndZero} x and-zero_step

double_shift : (q k : ℕ) → q * 2 ^ suc k ≡ 2 * (q * 2 ^ k)
double_shift q k = omega (arith, ap (λ (t : ℕ). q * t) (pow-suc 2 k))

-- `low | (high << k)` is a sum when `low` fits in `k` bits.
pub or_low_high : (k low high : ℕ) → low < 2 ^ k → bit_or low (high * 2 ^ k) ≡ low + high * 2 ^ k
or_low_high zero low high fits = ground (arith, zero-or high)
or_low_high (suc k) low high fits = ground (
  arith,
  or_halves low (high * 2 ^ suc k),
  double_shift high k,
  pow-suc 2 k,
  or_low_high k (low / 2) high,
)

-- `(high << k) | low`, the same.
pub or_high_low : (k high low : ℕ) → low < 2 ^ k → bit_or (high * 2 ^ k) low ≡ high * 2 ^ k + low
or_high_low zero high low fits = ground (arith, or-zero high)
or_high_low (suc k) high low fits = ground (
  arith,
  or_halves (high * 2 ^ suc k) low,
  double_shift high k,
  pow-suc 2 k,
  or_high_low k high (low / 2),
)

and_mask_split : (k high low : ℕ) → low < 2 ^ k → bit_and (high * 2 ^ k + low) (2 ^ k - 1) ≡ low
and_mask_split zero high low fits = rw and-zero (omega arith)
and_mask_split (suc k) high low fits = ground (
  arith,
  and_halves (high * 2 ^ suc k + low) (2 ^ suc k - 1),
  double_shift high k,
  pow-suc 2 k,
  one-le-pow k 2,
  and_mask_split k high (low / 2),
)

-- `x & (2^k - 1)` keeps the `k` low bits.
pub and_mask : (k x : ℕ) → bit_and x (2 ^ k - 1) ≡ x % 2 ^ k
and_mask k x = ground (arith, one-le-pow k 2, and_mask_split k (x / 2 ^ k) (x % 2 ^ k))

-- A law of one byte, checked at each of its values.
holds_below : ℕ → (ℕ → Bool) → Bool
holds_below zero law = true
holds_below (suc n) law = law n && holds_below n law

holds_below→holds :
    (n : ℕ) (law : ℕ → Bool) → holds_below n law ≡ true → (x : ℕ) → x < n → law x ≡ true
unfolding holds_below
holds_below→holds zero law e x h = absurd (omega arith)
holds_below→holds (suc n) law e x h = ground (arith, holds_below→holds n law (ground arith) x)

and_top_table : holds_below 256 (λ x. bit_and x 0x80 == x / 128 * 128) ≡ true
unfolding holds_below
and_top_table = refl

or_top_table : holds_below 256 (λ x. bit_or x 0x80 == x % 128 + 128) ≡ true
unfolding holds_below
or_top_table = refl

-- `x & 0x80` and `x | 0x80` on a byte.
pub and_top : (x : ℕ) → x < 256 → bit_and x 0x80 ≡ x / 128 * 128
and_top x h = ground (arith, holds_below→holds 256 _ and_top_table x h)

pub or_top : (x : ℕ) → x < 256 → bit_or x 0x80 ≡ x % 128 + 128
or_top x h = ground (arith, holds_below→holds 256 _ or_top_table x h)

and_double : (x m : ℕ) → bit_and x (m * 2) ≡ bit_and (x / 2) m * 2
and_double x m =
    let half : m * 2 / 2 ≡ m = omega arith in
    omega (arith, and_halves x (m * 2), ap (λ (t : ℕ). bit_and (x / 2) t) half)

-- A mask of high bits works on the high part alone.
and_times_4 : (x m : ℕ) → bit_and x (m * 4) ≡ bit_and (x / 4) m * 4
and_times_4 x m =
    let regroup : m * 4 ≡ m * 2 * 2 = omega arith in
    let twice : x / 2 / 2 ≡ x / 4 = omega arith in
    omega (
      arith,
      ap (λ (t : ℕ). bit_and x t) regroup,
      and_double x (m * 2),
      and_double (x / 2) m,
      ap (λ (t : ℕ). bit_and t m) twice,
    )

and_times_16 : (x m : ℕ) → bit_and x (m * 16) ≡ bit_and (x / 16) m * 16
and_times_16 x m =
    let regroup : m * 16 ≡ m * 4 * 4 = omega arith in
    let twice : x / 4 / 4 ≡ x / 16 = omega arith in
    omega (
      arith,
      ap (λ (t : ℕ). bit_and x t) regroup,
      and_times_4 x (m * 4),
      and_times_4 (x / 4) m,
      ap (λ (t : ℕ). bit_and t m) twice,
    )

and_times_32 : (x m : ℕ) → bit_and x (m * 32) ≡ bit_and (x / 32) m * 32
and_times_32 x m =
    let regroup : m * 32 ≡ m * 16 * 2 = omega arith in
    let twice : x / 2 / 16 ≡ x / 32 = omega arith in
    omega (
      arith,
      ap (λ (t : ℕ). bit_and x t) regroup,
      and_double x (m * 16),
      and_times_16 (x / 2) m,
      ap (λ (t : ℕ). bit_and t m) twice,
    )

pub and_times_128 : (x m : ℕ) → bit_and x (m * 128) ≡ bit_and (x / 128) m * 128
and_times_128 x m =
    let regroup : m * 128 ≡ m * 32 * 4 = omega arith in
    let twice : x / 4 / 32 ≡ x / 128 = omega arith in
    omega (
      arith,
      ap (λ (t : ℕ). bit_and x t) regroup,
      and_times_4 x (m * 32),
      and_times_32 (x / 4) m,
      ap (λ (t : ℕ). bit_and t m) twice,
    )
