-- ===== src/Core/VarInt/RoundTrip.antt =====
-- `VarInt::decode` reads back what `VarInt::encode` wrote.
use mathlib.Core.WellFounded.{Acc}
use native.Mathlib.Nat.{pow-suc, div-add-mod, mod-eq_of_lt}
use native.Mathlib.Numerals.{towards_suc}
use native.Mathlib.Decide.{dec_lt}
use statik_rs.Prelude.{ℕ, zero, suc, ◌+◌, ◌*◌, ◌/◌, ◌%◌, ◌^◌, ◌<◌, ◌≡◌}
use statik_rs.Prelude.{arith, ap, ◌∷◌, ◌++◌, lt_wf, ◌∙◌}
use statik_rs.Prelude.Bits.{and_mask, and_top, or_low_high}
use statik_rs.Prelude.Int.{ℤ, IsInt, as_unsigned, as_signed, as_unsigned-lt, as_signed-as_unsigned}
use statik_rs.Core.Result.{ok, Bytes}
use statik_rs.Core.VarInt.{encode_loop, encode_varint, decode_loop, decode_varint}
use statik_rs.Core.VarInt.Encode.{encode_loop_last, encode_loop_more}

shift_seven : (p : ℕ) → 2 ^ (p + 7) ≡ 128 * 2 ^ p
shift_seven p = simp towards_suc (omega arith)

pub group_room : (g value p : ℕ) → g < 128 → value < 2 ^ p → value + g * 2 ^ p < 2 ^ (p + 7)
group_room g value p hg hv = grind (arith, shift_seven p)

-- The lowest group of a value and the others, at position `p`.
split_group : (v p : ℕ) → v * 2 ^ p ≡ v % 128 * 2 ^ p + v / 128 * 2 ^ (p + 7)
split_group v p = omega (
  arith,
  ap (λ (t : ℕ). t * 2 ^ p) (div-add-mod v 128),
  ap (λ (t : ℕ). v / 128 * t) (shift_seven p),
)

-- One round of `decode` on a last byte and on one before it.
pub decode_last :
    (g value p : ℕ) (rest : Bytes)
    → g < 128
    → value < 2 ^ p
    → g * 2 ^ p < 2 ^ 32
    → decode_loop (g ∷ rest) value p ≡ ok (as_signed (2 ^ 32) (value + g * 2 ^ p), rest)
unfolding decode_loop
decode_last g value p rest hg hv fits =
    let e : g * 2 ^ p % 2 ^ 32 ≡ g * 2 ^ p = mod-eq_of_lt fits in
    ground (arith, e, and_mask 7 g, and_top g, or_low_high p value g)

pub decode_inner :
    (g value p : ℕ) (rest : Bytes)
    → g < 128
    → value < 2 ^ p
    → p < 28
    → g * 2 ^ p < 2 ^ 32
    → decode_loop ((g + 128) ∷ rest) value p ≡ decode_loop rest (value + g * 2 ^ p) (p + 7)
unfolding decode_loop
decode_inner g value p rest hg hv hp fits =
    let e : g * 2 ^ p % 2 ^ 32 ≡ g * 2 ^ p = mod-eq_of_lt fits in
    ground (arith, e, and_mask 7 (g + 128), and_top (g + 128), or_low_high p value g)

-- `v` is the part of the number that is still to be read, at position `p`.
decode_loop-encode_loop :
    (k v : ℕ) (w : Acc ◌<◌ v) (value p : ℕ) (rest : Bytes)
    → v < 128 ^ suc k
    → p + 7 * k ≡ 28
    → value < 2 ^ p
    → v * 2 ^ p < 2 ^ 32
    → decode_loop (encode_loop v w ++ rest) value p
      ≡ ok (as_signed (2 ^ 32) (value + v * 2 ^ p), rest)
decode_loop-encode_loop zero v w value p rest hv hp hval fits =
    rw (encode_loop_last v w (omega arith)) (decode_last v value p rest (omega arith) hval fits)
decode_loop-encode_loop (suc k) v (Acc.intro _ smaller) value p rest hv hp hval fits =
    elim (dec_lt 0 (v / 2 ^ 7)) [
      | no last ↦
          rw (encode_loop_last v (Acc.intro v smaller) (omega arith))
            (decode_last v value p rest (omega arith) hval fits)
      | yes more ↦ rw (encode_loop_more v smaller more) (
          decode_inner (v % 128) value p _ (omega arith) hval (omega arith)
            (omega (arith, split_group v p))
          ∙ decode_loop-encode_loop k (v / 2 ^ 7) _ (value + v % 128 * 2 ^ p) (p + 7) rest
              (omega (arith, pow-suc 128 (suc k))) (omega arith)
              (group_room (v % 128) value p (omega arith) hval) (omega (arith, split_group v p))
          ∙ ap (λ (u : ℕ). ok (as_signed (2 ^ 32) u, rest)) (omega (arith, split_group v p)))
    ]

-- Every `i32` is read back from its VarInt, whatever follows it, which is left.
pub decode_varint-encode_varint :
    (v : ℤ) (rest : Bytes)
    → IsInt (2 ^ 32) v
    → decode_varint (encode_varint v ++ rest) ≡ ok (v, rest)
unfolding decode_varint encode_varint
decode_varint-encode_varint v rest h =
    let u = as_unsigned (2 ^ 32) v in
    let below : u < 2 ^ 32 = as_unsigned-lt (2 ^ 32) v (omega arith) in
    decode_loop-encode_loop 4 u (lt_wf.apply u) 0 0 rest (omega arith) (omega arith) (omega arith)
      (omega arith)
    ∙ ap (λ (z : ℤ). ok (z, rest))
        (ap (as_signed (2 ^ 32)) (omega arith) ∙ as_signed-as_unsigned (2 ^ 32) v h)
