-- ===== src/Core/Wire/Domain.antt =====
-- The values that `decode` gives on any input, whether an encoder wrote it or not.
use mathlib.Core.Path.{subst}
use native.Mathlib.Nat.{one-le-pow, pow-suc}
use statik_rs.Prelude.{ℕ, zero, suc, ◌^◌, ◌*◌, ◌%◌, ◌<◌, ◌≤◌, ◌≡◌, sym, arith}
use statik_rs.Prelude.{Bool, true, false, ◌&&◌, Bool-cases, inl, inr, none, some}
use statik_rs.Prelude.{length}
use statik_rs.Prelude.Int.{
  ℤ, pos, negsuc, IsInt, as_signed, as_unsigned, as_signed-IsInt, as_signed-as_unsigned,
}
use statik_rs.Core.Crates.{Crates, IsByteOrder}
use statik_rs.Core.Position.{from_packed, shift_right, shift_left, to_i32}
use statik_rs.Core.Position.RoundTrip.{InRange}
use statik_rs.Core.Result.{Result, ok, ◌>>=◌, err-ne-ok, Bytes}
use statik_rs.Core.Utf8.{is_utf8}
use statik_rs.Core.VarInt.{decode_varint}
use statik_rs.Core.VarInt.Decode.{decode_varint_ok}
use statik_rs.Core.Wire
use statik_rs.Core.Wire.Reading.{
  Gives, read_then, ok-Gives, err-Gives, read_then-Gives, read_exact_ok, decode_elements-Gives,
}
use statik_rs.Core.Wire.RoundTrip.{Survives, decode-encode}
use statik_rs.Core.Wire.Valid.{IsText, OnSome, IsValid, self_delimiting}
use statik_rs.Core.Wire.Local.{as_string, read_string}

decode_varint-Gives : Gives (IsInt (2 ^ 32)) decode_varint
decode_varint-Gives bytes v rest e =
    let (used, took, low, high, fits) = decode_varint_ok bytes v rest e in fits

length_then-Gives :
    {A : Type 0} (P : A → Type 0) (next : ℕ → Bytes → Result (A × Bytes))
    → ((n : ℕ) → n ≤ Wire.i32_max → Gives P (next n))
    → (z : ℤ) → IsInt (2 ^ 32) z
    → Gives P (λ bytes. Wire.checked_length z >>= λ n. next n bytes)
length_then-Gives P next h (pos n) fits = h n (omega arith)
length_then-Gives P next h (negsuc n) fits = err-Gives P _

as_string-Gives : (n : ℕ) (s : Bytes) → n ≤ Wire.i32_max → length s ≡ n → Gives IsText (as_string s)
as_string-Gives n s small size bytes a rest e = elim (Bool-cases (is_utf8 s)) [
  | inl good ↦
      let same : ◌≡◌ {A = Result (Bytes × Bytes)} (ok (s, bytes)) (ok (a, rest)) = rw good at e in
      ok-Gives IsText s (good, omega arith) bytes a rest same
  | inr bad ↦ absurd (err-ne-ok (rw bad at e))
]

decode_string-Gives : Gives IsText Wire.decode_string
unfolding Wire.decode_string
decode_string-Gives = read_then-Gives decode_varint _ (IsInt (2 ^ 32)) IsText decode_varint-Gives (
    length_then-Gives IsText read_string λ n small.
      read_then-Gives (Wire.read_exact n) as_string (λ s. length s ≡ n) IsText
        (λ bytes a rest e. (read_exact_ok n bytes a rest e).0)
        λ s size. as_string-Gives n s small size)

-- The fields of a block position are in range, whatever bits it was packed in.
shift_right-IsInt :
    (v : ℤ)
    → IsInt (2 ^ 64) v
    → IsInt (2 ^ 26) (shift_right v 38) × IsInt (2 ^ 12) (shift_right v 52)
shift_right-IsInt (pos n) h = omega arith
shift_right-IsInt (negsuc n) h = omega arith

small-IsInt : (v : ℤ) → IsInt (2 ^ 26) v → IsInt (2 ^ 32) v
small-IsInt (pos n) h = omega arith
small-IsInt (negsuc n) h = omega arith

smaller-IsInt : (v : ℤ) → IsInt (2 ^ 12) v → IsInt (2 ^ 32) v
smaller-IsInt (pos n) h = omega arith
smaller-IsInt (negsuc n) h = omega arith

shifted_left : (v : ℤ) (k : ℕ) → IsInt (2 ^ 64) (shift_left v k)
shifted_left v k =
    as_signed-IsInt (2 ^ 64) (as_unsigned (2 ^ 64) v * 2 ^ k) (omega arith) (omega arith)

kept : (P : ℤ → Type 0) (v : ℤ) → IsInt (2 ^ 32) v → P v → P (to_i32 v)
kept P v fits h = subst P (sym (as_signed-as_unsigned (2 ^ 32) v fits)) h

from_packed-InRange : (v : ℤ) → IsInt (2 ^ 64) v → InRange (from_packed v)
unfolding from_packed
from_packed-InRange v h =
    let x = (shift_right-IsInt v h).0 in
    let y = (shift_right-IsInt (shift_left v 52) (shifted_left v 52)).1 in
    let z = (shift_right-IsInt (shift_left v 26) (shifted_left v 26)).0 in
    (
      kept (IsInt (2 ^ 26)) (shift_right v 38) (small-IsInt _ x) x,
      kept (IsInt (2 ^ 12)) (shift_right (shift_left v 52) 52) (smaller-IsInt _ y) y,
      kept (IsInt (2 ^ 26)) (shift_right (shift_left v 26) 38) (small-IsInt _ z) z,
    )

-- The types whose decoder promises more than the shape of its value: no JSON, and no integer of
-- zero bytes.
abbrev pub is_plain : Wire.Ty → Bool
is_plain Wire.chat = false
is_plain Wire.status_response = false
is_plain (Wire.sint zero) = false
is_plain (Wire.vec t) = is_plain t
is_plain (Wire.option t) = is_plain t
is_plain (Wire.field name t rest) = is_plain t && is_plain rest
is_plain _ = true

module _ ⦃c : Crates⦄ (order : IsByteOrder c) where
  read_uint-Gives : (k : ℕ) → Gives (λ n. n < 256 ^ k) (Wire.read_uint k)
  unfolding Wire.read_uint
  read_uint-Gives k =
      read_then-Gives (Wire.read_exact k) (λ taken rest. ok (c.get_uint k taken, rest))
        (λ taken. Unit {0}) (λ n. n < 256 ^ k) (λ bytes a rest e. tt)
        λ taken done. ok-Gives (λ n. n < 256 ^ k) (c.get_uint k taken) (order.get_bound k taken)

  decode_option-Gives :
      {A : Type 0} (P : A → Type 0) (read : Bytes → Result (A × Bytes))
      → Gives P read
      → (present : Bool) → Gives (OnSome P) (Wire.decode_option read present)
  decode_option-Gives P read h true =
      read_then-Gives read (λ x rest. ok (some x, rest)) P (OnSome P) h
        (λ x good. ok-Gives (OnSome P) (some x) good)
  decode_option-Gives P read h false = ok-Gives (OnSome P) none tt

  even_power : (k : ℕ) → (0 < 256 ^ suc k) × (256 ^ suc k % 2 ≡ 0)
  even_power k = (one-le-pow (suc k) 256 (omega arith), omega (arith, pow-suc 256 k))

  -- Where no JSON is parsed, every value that a decoder gives is in the range of its Rust type:
  -- integers fit their width, strings are UTF-8, block positions fit their packed fields, and no
  -- sequence is longer than 2147483647.
  pub decode-IsValid : (t : Wire.Ty) → is_plain t ≡ true → Gives (IsValid t) (Wire.decode t)
  unfolding Wire.decode
  decode-IsValid Wire.boolean h = λ bytes b rest e. tt
  decode-IsValid Wire.var_int h = decode_varint-Gives
  decode-IsValid Wire.string h = decode_string-Gives
  decode-IsValid Wire.raw_bytes h = λ bytes b rest e. tt
  decode-IsValid Wire.block_pos h =
      read_then-Gives (Wire.read_uint 8) (λ n rest. ok (from_packed (as_signed (256 ^ 8) n), rest))
        (λ n. n < 256 ^ 8) InRange (read_uint-Gives 8)
        λ n small.
          ok-Gives InRange (from_packed (as_signed (256 ^ 8) n))
            (from_packed-InRange _ (as_signed-IsInt (2 ^ 64) n (omega arith) (omega arith)))
  decode-IsValid Wire.state h = λ bytes b rest e. tt
  decode-IsValid Wire.intent h = λ bytes b rest e. tt
  decode-IsValid Wire.chat h = cc
  decode-IsValid Wire.status_response h = cc
  decode-IsValid (Wire.uint k) h = read_uint-Gives k
  decode-IsValid (Wire.sint zero) h = cc
  decode-IsValid (Wire.sint (suc k)) h =
      let (positive, even) = even_power k in
      read_then-Gives (Wire.read_uint (suc k)) (λ n rest. ok (as_signed (256 ^ suc k) n, rest))
        (λ n. n < 256 ^ suc k) (IsInt (256 ^ suc k)) (read_uint-Gives (suc k))
        λ n small.
          ok-Gives (IsInt (256 ^ suc k)) (as_signed (256 ^ suc k) n)
            (as_signed-IsInt (256 ^ suc k) n positive even)
  decode-IsValid (Wire.byte_array k) h = λ bytes a rest e. (read_exact_ok k bytes a rest e).0
  decode-IsValid (Wire.vec t) h =
      read_then-Gives decode_varint _ (IsInt (2 ^ 32)) (IsValid (Wire.vec t)) decode_varint-Gives (
        length_then-Gives (IsValid (Wire.vec t)) (Wire.decode_elements (Wire.decode t))
          λ n small bytes xs rest e.
            let (size, all) =
              decode_elements-Gives (Wire.decode t) (IsValid t) (decode-IsValid t h) n bytes xs rest
                e in
            (omega arith, all))
  decode-IsValid (Wire.option t) h =
      read_then-Gives Wire.read_bool (Wire.decode_option (Wire.decode t)) (λ b. Unit {0})
        (IsValid (Wire.option t)) (λ bytes b rest e. tt)
        (λ b done. decode_option-Gives (IsValid t) (Wire.decode t) (decode-IsValid t h) b)
  decode-IsValid Wire.end h = λ bytes b rest e. tt
  decode-IsValid (Wire.field name t r) h =
      read_then-Gives (Wire.decode t)
        (λ v. read_then (Wire.decode r) (λ vs bytes. ok ((v, vs), bytes))) (IsValid t)
        (IsValid (Wire.field name t r)) (decode-IsValid t (ground arith))
        λ v good.
          read_then-Gives (Wire.decode r) (λ vs bytes. ok ((v, vs), bytes)) (IsValid r)
            (IsValid (Wire.field name t r)) (decode-IsValid r (ground arith))
            (λ vs fine. ok-Gives (IsValid (Wire.field name t r)) (v, vs) (good, fine))

  -- Whatever is decoded, of a type with no JSON and no `RawBytes`, can be encoded, and the
  -- encoding, which may differ from the bytes that were read, decodes to the same value, whatever
  -- stands behind it.
  pub decode-encode-decode :
      (t : Wire.Ty) (bytes : Bytes) (v : Wire.Val t) (rest : Bytes)
      → is_plain t ≡ true
      → self_delimiting t ≡ true
      → Wire.decode t bytes ≡ ok (v, rest)
      → Survives (Wire.encode t v) (Wire.decode t) v
  decode-encode-decode t bytes v rest plain self e =
      decode-encode order t v self (decode-IsValid t plain bytes v rest e)
