-- ===== src/Proto/Chunk/VarInts.antt =====
-- The second VarInt writer of the code base, `write_var_int` of common.rs, against the first.
use mathlib.Core.Logic.{dif_pos, dif_neg}
use mathlib.Core.WellFounded.{Acc}
use native.Mathlib.Decide.{ℕ_discrete, dec_lt}
use native.Mathlib.Nat.{ℕ_set, pow-suc}
use statik_rs.Prelude.{ℕ, zero, suc, ◌+◌, ◌-◌, ◌*◌, ◌/◌, ◌%◌, ◌^◌, ◌<◌, bit_and, bit_or, arith}
use statik_rs.Prelude.{[], ◌∷◌, lt_wf, ◌≡◌, ◌≢◌, ◌∙◌, ap, sym}
use statik_rs.Prelude.Bits.{and_mask, and_times_128, or_top}
use statik_rs.Prelude.Int.{ℤ, as_unsigned, as_unsigned-lt}
use statik_rs.Core.Result.{Bytes}
use statik_rs.Core.VarInt.{encode_loop, encode_varint}
use statik_rs.Core.VarInt.Encode.{encode_loop_last, encode_loop_more}
use statik_rs.Proto.Chunk.{
  above_seven_bits, seven_bits_less, shifted_small, write_loop, write_var_int,
}

high_part : (value : ℕ) → value < 2 ^ 32 → bit_and value above_seven_bits ≡ value / 128 * 128
high_part value h = omega (arith, and_times_128 value (2 ^ 25 - 1), and_mask 25 (value / 128))

marked_part : (value : ℕ) → bit_or (bit_and value 0x7f) 0x80 % 2 ^ 8 ≡ value % 128 + 128
marked_part value = omega (
  arith,
  and_mask 7 value,
  ap (λ (t : ℕ). bit_or t 0x80) (and_mask 7 value),
  or_top (value % 128) (omega arith),
)

write_loop_last :
    (value : ℕ) (h : value < 2 ^ 32) (w : Acc ◌<◌ value)
    → value < 128
    → write_loop value h w ≡ value ∷ []
unfolding write_loop
write_loop_last value h (Acc.intro _ smaller) low =
    dif_pos (ℕ_discrete (bit_and value above_seven_bits) 0) (ℕ_set _ _)
      (omega (arith, high_part value h)) _ _
    ∙ ap (λ (b : ℕ). b ∷ []) (omega arith)

write_loop_more :
    (value : ℕ) (h : value < 2 ^ 32) (smaller : (y : ℕ) → y < value → Acc ◌<◌ y)
    (more : bit_and value above_seven_bits ≢ 0)
    → write_loop value h (Acc.intro value smaller)
      ≡ (value % 128 + 128)
        ∷ write_loop
            (value / 2 ^ 7)
            (shifted_small value h)
            (smaller _ (seven_bits_less value h more))
unfolding write_loop
write_loop_more value h smaller more =
    dif_neg (ℕ_discrete (bit_and value above_seven_bits) 0) more _ _
    ∙ ap
        (λ (b : ℕ).
          b
          ∷ write_loop (value / 2 ^ 7) (shifted_small value h)
              (smaller _ (seven_bits_less value h more)))
        (marked_part value)

write_loop-encode_loop :
    (k value : ℕ) (h : value < 2 ^ 32) (w u : Acc ◌<◌ value)
    → value < 128 ^ suc k
    → write_loop value h w ≡ encode_loop value u
write_loop-encode_loop zero value h w u fits =
    write_loop_last value h w (omega arith) ∙ sym (encode_loop_last value u (omega arith))
write_loop-encode_loop (suc k) value h (Acc.intro _ smaller) (Acc.intro _ smaller') fits =
    elim (dec_lt 0 (value / 2 ^ 7)) [
      | no last ↦
          write_loop_last value h (Acc.intro value smaller) (omega arith)
          ∙ sym (encode_loop_last value (Acc.intro value smaller') (omega arith))
      | yes more ↦
          let seen : bit_and value above_seven_bits ≢ 0 = omega (arith, high_part value h) in
          write_loop_more value h smaller seen
          ∙ ap (λ (l : Bytes). (value % 128 + 128) ∷ l)
              (write_loop-encode_loop k (value / 2 ^ 7) _ _ _ (omega (arith, pow-suc 128 (suc k))))
          ∙ sym (encode_loop_more value smaller' more)
    ]

-- `write_var_int` of the chunk builder writes the bytes of `VarInt::encode`, for every `i32`.
pub write_var_int-encode_varint : (v : ℤ) → write_var_int v ≡ encode_varint v
unfolding write_var_int encode_varint
write_var_int-encode_varint v =
    let value = as_unsigned (2 ^ 32) v in
    let small : value < 2 ^ 32 = as_unsigned-lt (2 ^ 32) v (omega arith) in
    write_loop-encode_loop 4 value small (lt_wf.apply value) (lt_wf.apply value) (omega arith)
