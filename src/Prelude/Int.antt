-- ===== src/Prelude/Int.antt =====
-- Signed integers over the native numbers, and the casts between a signed integer and the
-- bit pattern of the same width. A width is given by its modulus, `2 ^ w`.
use Prim.Native.Nat.{ℕ, ◌-◌, ◌/◌, ◌%◌, ◌<◌}
use mathlib.Core.Path.{◌≡◌}
use mathlib.Core.Bool.{Bool, true, false}
use native.Mathlib.Omega.{arith}
use native.Mathlib.Nat.{mod-eq_of_lt, mod-lt}
use statik_rs.Prelude.Tests.{ltb, ◌==◌, if◌then◌else◌}

-- `negsuc n` is -(n + 1).
pub data ℤ : Type 0 where
  pos : ℕ → ℤ
  negsuc : ℕ → ℤ

-- z as u{w}: two's complement.
abbrev pub as_unsigned : ℕ → ℤ → ℕ
as_unsigned m (pos n) = n % m
as_unsigned m (negsuc n) = m - 1 - n % m

-- n as i{w}.
abbrev pub as_signed : ℕ → ℕ → ℤ
as_signed m n = if ltb (n % m) (m / 2) then pos (n % m) else negsuc (m - 1 - n % m)

-- The values of i{w}.
abbrev pub IsInt : ℕ → ℤ → Type 0
IsInt m (pos n) = n < m / 2
IsInt m (negsuc n) = n < m / 2

abbrev pub eq_ℤ : ℤ → ℤ → Bool
eq_ℤ (pos a) (pos b) = a == b
eq_ℤ (negsuc a) (negsuc b) = a == b
eq_ℤ (pos a) (negsuc b) = false
eq_ℤ (negsuc a) (pos b) = false

pub eq_ℤ_refl : (z : ℤ) → eq_ℤ z z ≡ true
eq_ℤ_refl (pos n) = ground arith
eq_ℤ_refl (negsuc n) = ground arith

pub eq_ℤ→eq : (a b : ℤ) → eq_ℤ a b ≡ true → a ≡ b
eq_ℤ→eq (pos a) (pos b) h = ground arith
eq_ℤ→eq (negsuc a) (negsuc b) h = ground arith
eq_ℤ→eq (pos a) (negsuc b) h = ground arith
eq_ℤ→eq (negsuc a) (pos b) h = ground arith

pub as_signed-as_unsigned : (m : ℕ) (z : ℤ) → IsInt m z → as_signed m (as_unsigned m z) ≡ z
as_signed-as_unsigned m (pos n) h =
    let e : n % m ≡ n = mod-eq_of_lt (omega arith) in rw (e, e) (ground arith)
as_signed-as_unsigned m (negsuc n) h =
    let e : n % m ≡ n = mod-eq_of_lt (omega arith) in
    let f : (m - 1 - n) % m ≡ m - 1 - n = mod-eq_of_lt (omega arith) in rw (e, f) (ground arith)

pub as_unsigned-lt : (m : ℕ) (z : ℤ) → 0 < m → as_unsigned m z < m
as_unsigned-lt m (pos n) h = omega arith
as_unsigned-lt m (negsuc n) h = omega arith

pub as_signed-IsInt : (m n : ℕ) → 0 < m → m % 2 ≡ 0 → IsInt m (as_signed m n)
as_signed-IsInt m n h e = let below : n % m < m = mod-lt n h in ground arith

pub as_unsigned-as_signed : (m n : ℕ) → n < m → as_unsigned m (as_signed m n) ≡ n
as_unsigned-as_signed m n h =
    let e : n % m ≡ n = mod-eq_of_lt h in
    let f : (m - 1 - n) % m ≡ m - 1 - n = mod-eq_of_lt (omega arith) in rw e (ground (arith, e, f))
