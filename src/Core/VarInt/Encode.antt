-- ===== src/Core/VarInt/Encode.antt =====
-- What `VarInt::encode` writes: its steps in plain arithmetic, and the shape of the result.
use mathlib.Core.WellFounded.{Acc}
use mathlib.Core.Logic.{dif_pos, dif_neg}
use native.Mathlib.Bridge.{le_prop}
use native.Mathlib.Decide.{dec_lt}
use native.Mathlib.Nat.{pow-suc}
use statik_rs.Prelude.{ℕ, zero, suc, ◌+◌, ◌/◌, ◌%◌, ◌^◌, ◌≤◌, ◌<◌, bit_and, bit_or, ◌≡◌, ap, ◌∙◌}
use statik_rs.Prelude.{arith, [], ◌∷◌, length, All, lt_wf}
use statik_rs.Prelude.Bits.{and_mask, or_top}
use statik_rs.Prelude.Int.{ℤ, as_unsigned, as_unsigned-lt}
use statik_rs.Core.Result.{Bytes, IsByte}
use statik_rs.Core.VarInt.{shift_shrinks, encode_loop, encode_varint}

-- The last byte, and one before the last.
pub last_part : (value : ℕ) → value < 128 → bit_and (value % 2 ^ 8) 0x7f ≡ value
last_part value h = ground (arith, and_mask 7 (value % 2 ^ 8))

pub inner_part : (value : ℕ) → bit_or (value % 2 ^ 8) 0x80 ≡ value % 128 + 128
inner_part value = ground (arith, or_top (value % 2 ^ 8) (omega arith))

-- The loop's two steps.
pub encode_loop_last :
    (value : ℕ) (w : Acc ◌<◌ value) → value < 128 → encode_loop value w ≡ value ∷ []
unfolding encode_loop
encode_loop_last value (Acc.intro _ smaller) h =
    dif_neg (dec_lt 0 (value / 2 ^ 7)) (λ more. omega arith) _ _
    ∙ ap (λ (b : ℕ). b ∷ []) (last_part value h)

pub encode_loop_more :
    (value : ℕ) (smaller : (y : ℕ) → y < value → Acc ◌<◌ y) (more : 0 < value / 2 ^ 7)
    → encode_loop value (Acc.intro value smaller)
      ≡ (value % 128 + 128) ∷ encode_loop (value / 2 ^ 7) (smaller _ (shift_shrinks value more))
unfolding encode_loop
encode_loop_more value smaller more =
    dif_pos (dec_lt 0 (value / 2 ^ 7)) le_prop more _ _
    ∙ ap (λ (b : ℕ). b ∷ encode_loop (value / 2 ^ 7) (smaller _ (shift_shrinks value more)))
        (inner_part value)

-- A value below 128 ^ (k + 1) takes 1 to k + 1 bytes.
abbrev pub HasShape : ℕ → Bytes → Type 0
HasShape k bytes = All IsByte bytes × (1 ≤ length bytes) × (length bytes ≤ k + 1)

pub encode_loop-HasShape :
    (k value : ℕ) (w : Acc ◌<◌ value) → value < 128 ^ suc k → HasShape k (encode_loop value w)
unfolding encode_loop
encode_loop-HasShape zero value (Acc.intro _ smaller) h = ground (arith, last_part value)
encode_loop-HasShape (suc k) value (Acc.intro _ smaller) h = grind (
  arith,
  last_part value,
  inner_part value,
  pow-suc 128 (suc k),
  λ (w : Acc ◌<◌ (value / 2 ^ 7)). encode_loop-HasShape k (value / 2 ^ 7) w,
)

-- Every `i32` is written as 1 to 5 bytes, each below 256.
pub encode_varint-HasShape : (v : ℤ) → HasShape 4 (encode_varint v)
unfolding encode_varint
encode_varint-HasShape v =
    let u = as_unsigned (2 ^ 32) v in
    encode_loop-HasShape 4 u (lt_wf.apply u) (omega (arith, as_unsigned-lt (2 ^ 32) v))
