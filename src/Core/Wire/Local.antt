-- ===== src/Core/Wire/Local.antt =====
-- `decode` on any input takes what it reads off the front and does not look behind it.
use statik_rs.Prelude.{ℕ, ◌≡◌, ap, arith}
use statik_rs.Prelude.{Bool, true, false, Option, none, some, [], ◌∷◌}
use statik_rs.Prelude.{leb, ◌==◌, if◌then◌else◌}
use statik_rs.Prelude.Int.{ℤ, pos, negsuc}
use statik_rs.Core.Crates.{Crates}
use statik_rs.Core.Result.{Result, ok, err, ◌>>=◌, Bytes, bad_utf8}
use statik_rs.Core.Utf8.{is_utf8}
use statik_rs.Core.VarInt.{decode_varint}
use statik_rs.Core.VarInt.Decode.{decode_varint_ok}
use statik_rs.Core.Wire
use statik_rs.Core.Wire.Reading.{
  IsLocal, read_then, ok-IsLocal, err-IsLocal, read_then-IsLocal, read_exact-IsLocal,
  decode_elements-IsLocal,
}
use statik_rs.Core.Wire.Valid.{self_delimiting}

-- Readers that choose by a test.
if-IsLocal :
    {A : Type 0} (b : Bool) (f g : Bytes → Result (A × Bytes))
    → IsLocal f
    → IsLocal g
    → IsLocal (λ bytes. if b then f bytes else g bytes)
if-IsLocal true f g h k = h
if-IsLocal false f g h k = k

decode_varint-IsLocal : IsLocal decode_varint
decode_varint-IsLocal bytes v rest e =
    let (used, took, low, high, fits) = decode_varint_ok bytes v rest e in (used, took)

-- A reader that needs a length that is not negative.
length_then-IsLocal :
    {A : Type 0} (next : ℕ → Bytes → Result (A × Bytes))
    → ((n : ℕ) → IsLocal (next n))
    → (z : ℤ) → IsLocal (λ bytes. Wire.checked_length z >>= λ n. next n bytes)
length_then-IsLocal next h (pos n) = h n
length_then-IsLocal next h (negsuc n) = err-IsLocal _

-- The end of `String::decode`.
abbrev pub as_string : Bytes → Bytes → Result (Bytes × Bytes)
as_string s rest = if is_utf8 s then ok (s, rest) else err bad_utf8

abbrev pub read_string : ℕ → Bytes → Result (Bytes × Bytes)
read_string n = read_then (Wire.read_exact n) as_string

decode_string-IsLocal : IsLocal Wire.decode_string
unfolding Wire.decode_string
decode_string-IsLocal = read_then-IsLocal decode_varint _ decode_varint-IsLocal (
    length_then-IsLocal read_string λ n.
      read_then-IsLocal (Wire.read_exact n) as_string (read_exact-IsLocal n)
        λ s. if-IsLocal (is_utf8 s) _ _ (ok-IsLocal s) (err-IsLocal bad_utf8))

state_of-IsLocal : (v : ℤ) → IsLocal (Wire.state_of v)
state_of-IsLocal (pos n) = if-IsLocal (n == 0) _ _ (ok-IsLocal _) (
    if-IsLocal (n == 1) _ _ (ok-IsLocal _) (
      if-IsLocal (n == 2) _ _ (ok-IsLocal _) (
        if-IsLocal (n == 3) _ _ (ok-IsLocal _)
          (if-IsLocal (n == 4) _ _ (ok-IsLocal _) (err-IsLocal _)))))
state_of-IsLocal (negsuc n) = err-IsLocal _

intent_of-IsLocal : (v : ℤ) → IsLocal (Wire.intent_of v)
intent_of-IsLocal (pos n) = if-IsLocal (n == 1) _ _ (ok-IsLocal _) (
    if-IsLocal (n == 2) _ _ (ok-IsLocal _) (if-IsLocal (n == 3) _ _ (ok-IsLocal _) (err-IsLocal _)))
intent_of-IsLocal (negsuc n) = err-IsLocal _

from_json-IsLocal : {A : Type 0} (x : Option A) → IsLocal (Wire.from_json x)
from_json-IsLocal none = err-IsLocal _
from_json-IsLocal (some a) = ok-IsLocal a

read_bool-IsLocal : ⦃c : Crates⦄ → IsLocal Wire.read_bool
read_bool-IsLocal [] b rest e = cc
read_bool-IsLocal (n ∷ bytes) b rest e =
    let (used, (split, again)) =
      if-IsLocal (leb n 1) _ _ (ok-IsLocal (n == 1)) (err-IsLocal _) bytes b rest e in
    (n ∷ used, (ap (λ (l : Bytes). n ∷ l) split, again))

module _ ⦃c : Crates⦄ where
  read_uint-IsLocal : (k : ℕ) → IsLocal (Wire.read_uint k)
  unfolding Wire.read_uint
  read_uint-IsLocal k =
      read_then-IsLocal (Wire.read_exact k) (λ taken rest. ok (c.get_uint k taken, rest))
        (read_exact-IsLocal k) (λ taken. ok-IsLocal (c.get_uint k taken))

  decode_option-IsLocal :
      {A : Type 0} (read : Bytes → Result (A × Bytes))
      → IsLocal read
      → (present : Bool) → IsLocal (Wire.decode_option read present)
  decode_option-IsLocal read h true =
      read_then-IsLocal read (λ x rest. ok (some x, rest)) h (λ x. ok-IsLocal (some x))
  decode_option-IsLocal read h false = ok-IsLocal none

  -- Where a type has no `RawBytes`, its decoder takes some bytes off the front of its input, and
  -- gives the same value whatever stands behind them.
  pub decode-IsLocal : (t : Wire.Ty) → self_delimiting t ≡ true → IsLocal (Wire.decode t)
  unfolding Wire.decode
  decode-IsLocal Wire.boolean h = read_bool-IsLocal
  decode-IsLocal Wire.var_int h = decode_varint-IsLocal
  decode-IsLocal Wire.string h = decode_string-IsLocal
  decode-IsLocal Wire.raw_bytes h = cc
  decode-IsLocal Wire.block_pos h =
      read_then-IsLocal (Wire.read_uint 8) _ (read_uint-IsLocal 8) (λ n. ok-IsLocal _)
  decode-IsLocal Wire.state h =
      read_then-IsLocal decode_varint Wire.state_of decode_varint-IsLocal state_of-IsLocal
  decode-IsLocal Wire.intent h =
      read_then-IsLocal decode_varint Wire.intent_of decode_varint-IsLocal intent_of-IsLocal
  decode-IsLocal Wire.chat h =
      read_then-IsLocal Wire.decode_string (λ s. Wire.from_json (c.chat_from_str s))
        decode_string-IsLocal (λ s. from_json-IsLocal (c.chat_from_str s))
  decode-IsLocal Wire.status_response h =
      read_then-IsLocal Wire.decode_string (λ s. Wire.from_json (c.status_from_str s))
        decode_string-IsLocal (λ s. from_json-IsLocal (c.status_from_str s))
  decode-IsLocal (Wire.uint k) h = read_uint-IsLocal k
  decode-IsLocal (Wire.sint k) h =
      read_then-IsLocal (Wire.read_uint k) _ (read_uint-IsLocal k) (λ n. ok-IsLocal _)
  decode-IsLocal (Wire.byte_array k) h = read_exact-IsLocal k
  decode-IsLocal (Wire.vec t) h = read_then-IsLocal decode_varint _ decode_varint-IsLocal (
      length_then-IsLocal (Wire.decode_elements (Wire.decode t))
        (decode_elements-IsLocal (Wire.decode t) (decode-IsLocal t h)))
  decode-IsLocal (Wire.option t) h =
      read_then-IsLocal Wire.read_bool (Wire.decode_option (Wire.decode t)) read_bool-IsLocal
        (decode_option-IsLocal (Wire.decode t) (decode-IsLocal t h))
  decode-IsLocal Wire.end h = ok-IsLocal tt
  decode-IsLocal (Wire.field name t rest) h =
      read_then-IsLocal (Wire.decode t)
        (λ v. read_then (Wire.decode rest) (λ vs bytes. ok ((v, vs), bytes)))
        (decode-IsLocal t (ground arith))
        λ v.
          read_then-IsLocal (Wire.decode rest) (λ vs bytes. ok ((v, vs), bytes))
            (decode-IsLocal rest (ground arith)) (λ vs. ok-IsLocal (v, vs))
