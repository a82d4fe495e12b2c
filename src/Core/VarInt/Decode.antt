-- ===== src/Core/VarInt/Decode.antt =====
-- `VarInt::decode` on any input, well formed or not.
use mathlib.Core.Path.{subst}
use statik_rs.Prelude.{ℕ, ◌+◌, ◌-◌, ◌*◌, ◌%◌, ◌^◌, ◌≤◌, bit_and, bit_or, ◌≡◌, ap}
use statik_rs.Prelude.{arith, Bool, false, [], ◌∷◌, ◌++◌, ◌==◌, leb, length, ◌⊎◌, inl, inr}
use statik_rs.Prelude.{Bool-cases, All, take, suc}
use statik_rs.Prelude.Int.{ℤ, IsInt, as_signed, as_signed-IsInt}
use statik_rs.Core.Result.{ok_value, ok_rest, err-ne-ok, ok-ne-err}
use statik_rs.Core.Result.{Result, ok, err, Bytes, Error, unexpected_eof, varint_too_long}
use statik_rs.Core.VarInt.{decode_loop, decode_varint, segment_bits, continue_bit}

-- The accumulator after one more group.
abbrev add_group : ℕ → ℕ → ℕ → ℕ
add_group value byte p = bit_or value (bit_and byte segment_bits * 2 ^ p % 2 ^ 32)

abbrev is_last : ℕ → Bool
is_last byte = bit_and byte continue_bit == 0

-- `read` took `used` from the front of `bytes`, and would do the same before any other rest.
abbrev pub Took : {A : Type 0} → (Bytes → Result (A × Bytes)) → Bytes → A → Bytes → Bytes → Type 0
Took read bytes a rest used =
    (bytes ≡ used ++ rest) × ((more : Bytes) → read (used ++ more) ≡ ok (a, more))

decode_loop_ok :
    (bytes : Bytes) (value p k : ℕ) (v : ℤ) (rest : Bytes)
    → p + 7 * k ≡ 28
    → decode_loop bytes value p ≡ ok (v, rest)
    → (used : Bytes) × Took (λ b. decode_loop b value p) bytes v rest used
      × (1 ≤ length used)
      × (length used ≤ k + 1)
      × IsInt (2 ^ 32) v
unfolding decode_loop
decode_loop_ok [] value p k v rest h e = cc
decode_loop_ok (byte ∷ bytes) value p k v rest h e = elim (Bool-cases (is_last byte)) [
  | inl last ↦
      let done : ok (as_signed (2 ^ 32) (add_group value byte p), bytes) ≡ ok (v, rest) =
        rw last at e in
      (
        byte ∷ [],
        (
          ap (λ (l : Bytes). byte ∷ l) (ok_rest done),
          λ more. rw last (ap (λ (z : ℤ). ok (z, more)) (ok_value done)),
        ),
        omega arith,
        omega arith,
        subst (IsInt (2 ^ 32)) (ok_value done)
            (as_signed-IsInt (2 ^ 32) (add_group value byte p) (omega arith) (omega arith)),
      )
  | inr inner ↦ elim (Bool-cases (leb 35 (p + 7))) [
    | inl long ↦ absurd (err-ne-ok (rw (inner, long) at e))
    | inr short ↦
        let (used, (split, again), low, high, fits) =
          decode_loop_ok bytes (add_group value byte p) (p + 7) (k - 1) v rest (ground arith)
            (rw (inner, short) at e) in
        (
          byte ∷ used,
          (ap (λ (l : Bytes). byte ∷ l) split, λ more. rw (inner, short) (again more)),
          omega arith,
          ground arith,
          fits,
        )
  ]
]

-- A number that is read was taken from the first 1 to 5 bytes, fits an `i32`, and is the same
-- before any other rest.
pub decode_varint_ok :
    (bytes : Bytes) (v : ℤ) (rest : Bytes)
    → decode_varint bytes ≡ ok (v, rest)
    → (used : Bytes) × Took decode_varint bytes v rest used
      × (1 ≤ length used)
      × (length used ≤ 5)
      × IsInt (2 ^ 32) v
unfolding decode_varint
decode_varint_ok bytes v rest e = decode_loop_ok bytes 0 0 4 v rest (omega arith) e

-- The two ways to fail: the input ends within the first four bytes, all of which announce another,
-- or each of the first five does, and then no further input mends it.
abbrev pub Truncated : Bytes → Error → Type 0
Truncated bytes e = (e ≡ unexpected_eof) × (length bytes ≤ 4) × All (λ b. is_last b ≡ false) bytes

abbrev pub TooLong : Bytes → Error → Type 0
TooLong bytes e =
    (e ≡ varint_too_long)
    × (5 ≤ length bytes)
    × All (λ b. is_last b ≡ false) (take 5 bytes)
    × ((more : Bytes) → decode_varint (bytes ++ more) ≡ err varint_too_long)

decode_loop_err :
    (bytes : Bytes) (value p k : ℕ) (e : Error)
    → p + 7 * k ≡ 28
    → decode_loop bytes value p ≡ err e
    → ((e ≡ unexpected_eof) × (length bytes ≤ k) × All (λ b. is_last b ≡ false) bytes)
      ⊎ ((e ≡ varint_too_long)
          × (suc k ≤ length bytes)
          × All (λ b. is_last b ≡ false) (take (suc k) bytes)
          × ((more : Bytes) → decode_loop (bytes ++ more) value p ≡ err varint_too_long))
unfolding decode_loop
decode_loop_err [] value p k e h r = inl (cc, omega arith, tt)
decode_loop_err (byte ∷ bytes) value p k e h r = elim (Bool-cases (is_last byte)) [
  | inl last ↦ absurd (ok-ne-err (rw last at r))
  | inr inner ↦ elim (Bool-cases (leb 35 (p + 7))) [
    | inl long ↦
        let done : 0 ≡ k = ground arith in
        inr (
          cc (rw (inner, long) at r),
          ground arith,
          (inner, subst (λ (n : ℕ). All (λ b. is_last b ≡ false) (take n bytes)) done tt),
          λ more. rw (inner, long),
        )
    | inr short ↦
        elim (decode_loop_err bytes (add_group value byte p) (p + 7) (k - 1) e (ground arith)
          (rw (inner, short) at r)) [
            | inl (same, few, all) ↦ inl (same, ground arith, (inner, all))
            | inr (same, many, all, still) ↦
                let one_more : suc (k - 1) ≡ k = ground arith in
                inr (
                  same,
                  ground arith,
                  (
                    inner,
                    subst (λ (n : ℕ). All (λ b. is_last b ≡ false) (take n bytes)) one_more all,
                  ),
                  λ more. rw (inner, short) (still more),
                )
          ]
  ]
]

-- Reading a number fails in two ways only. Either the error is `UnexpectedEof`, and the input
-- has at most four bytes, all of which announce another; or it says that the VarInt is too long,
-- and the input has at least five bytes, each of the first five announces another, and it fails in
-- the same way with anything behind it.
pub decode_varint_err :
    (bytes : Bytes) (e : Error) → decode_varint bytes ≡ err e → Truncated bytes e ⊎ TooLong bytes e
unfolding decode_varint
decode_varint_err bytes e r = decode_loop_err bytes 0 0 4 e (omega arith) r
