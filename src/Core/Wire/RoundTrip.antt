-- ===== src/Core/Wire/RoundTrip.antt =====
-- What is encoded is decoded, for every type of the wire.
use native.Mathlib.Nat.{one-le-pow}
use statik_rs.Prelude.{ℕ, ◌^◌, ◌≤◌, ◌<◌, ◌≡◌, refl, ap, ◌∙◌, true, false, arith}
use statik_rs.Prelude.{
  Option, none, some, List, [], ◌∷◌, ◌++◌, append_assoc, append-nil, All, length,
}
use statik_rs.Prelude.{length-append, take-append, drop-append, le→leb, Bool-cases, inl, inr, ◌&&◌}
use statik_rs.Prelude.Int.{ℤ, pos, as_unsigned, as_signed, as_unsigned-lt, as_signed-as_unsigned}
use statik_rs.Core.Position.{BlockPos, to_packed, from_packed}
use statik_rs.Core.Position.RoundTrip.{to_packed-IsInt, from_packed-to_packed}
use statik_rs.Core.State.{State, ClientIntent, state_discriminant, intent_discriminant}
use statik_rs.Core.Crates.{Crates, IsByteOrder}
use statik_rs.Core.Result.{Result, ok, ◌>>=◌, Bytes}
use statik_rs.Core.VarInt.{encode_varint, decode_varint, from_usize}
use statik_rs.Core.VarInt.RoundTrip.{decode_varint-encode_varint}
use statik_rs.Core.Wire
use statik_rs.Core.Wire.Valid.{IsText, IsJson, IsValid, self_delimiting, fills_frame, is_end}

-- `write a` succeeds, and `read` gives `a` and whatever follows what was written.
abbrev pub Survives : {A : Type 0} → Result Bytes → (Bytes → Result (A × Bytes)) → A → Type 0
Survives written read a =
    (bytes : Bytes) × (written ≡ ok bytes) × ((rest : Bytes) → read (bytes ++ rest) ≡ ok (a, rest))

-- The same with nothing behind it, as in a frame of its own.
abbrev pub SurvivesInFrame : {A : Type 0} → Result Bytes → (Bytes → Result (A × Bytes)) → A → Type 0
SurvivesInFrame written read a = (bytes : Bytes) × (written ≡ ok bytes) × (read bytes ≡ ok (a, []))

read_exact-append :
    (k : ℕ) (bytes rest : Bytes)
    → length bytes ≡ k
    → Wire.read_exact k (bytes ++ rest) ≡ ok (bytes, rest)
unfolding Wire.read_exact
read_exact-append k bytes rest e =
    rw
      (
        ← e,
        le→leb (length bytes) (length (bytes ++ rest)) (omega (arith, length-append bytes rest)),
      )
      (rw (take-append, drop-append))

from_usize_small : (n : ℕ) → n ≤ Wire.i32_max → from_usize n ≡ pos n
from_usize_small n h = ground arith

-- A length prefix and what it measures.
read_length :
    (n : ℕ) (body rest : Bytes)
    → n ≤ Wire.i32_max
    → decode_varint ((encode_varint (from_usize n) ++ body) ++ rest) ≡ ok (pos n, body ++ rest)
read_length n body rest h =
    rw (from_usize_small n h, append_assoc)
      (decode_varint-encode_varint (pos n) (body ++ rest) (omega arith))

pub decode_string-encode_string :
    (s : Bytes) → IsText s → Survives (Wire.encode_string s) Wire.decode_string s
unfolding Wire.encode_string Wire.decode_string
decode_string-encode_string s h = (
  encode_varint (from_usize (length s)) ++ s,
  rw (le→leb (length s) Wire.i32_max h.1),
  λ rest. rw (read_length (length s) s rest h.1, read_exact-append (length s) s rest refl, h.0),
)

decode_json-encode_json :
    {A : Type 0} (print : A → Option Bytes) (parse : Bytes → Option A) (a : A)
    → IsJson print parse a
    → Survives
        (Wire.encode_json (print a))
        (λ bytes. Wire.decode_string bytes >>= λ p. Wire.from_json (parse p.0) p.1)
        a
decode_json-encode_json print parse a (s, printed, text, parsed) =
    let (bytes, e, back) = decode_string-encode_string s text in
    (bytes, rw (printed, e), λ rest. rw (back rest, parsed))

read_state :
    (s : State) (rest : Bytes)
    → (decode_varint (encode_varint (state_discriminant s) ++ rest) >>= λ p. Wire.state_of p.0 p.1)
      ≡ ok (s, rest)
unfolding state_discriminant
read_state State.handshake rest = rw (decode_varint-encode_varint (pos 0) rest (omega arith))
read_state State.status rest = rw (decode_varint-encode_varint (pos 1) rest (omega arith))
read_state State.login rest = rw (decode_varint-encode_varint (pos 2) rest (omega arith))
read_state State.configuration rest = rw (decode_varint-encode_varint (pos 3) rest (omega arith))
read_state State.play rest = rw (decode_varint-encode_varint (pos 4) rest (omega arith))

read_intent :
    (s : ClientIntent) (rest : Bytes)
    → (decode_varint (encode_varint (intent_discriminant s) ++ rest) >>= λ p.
        Wire.intent_of p.0 p.1)
      ≡ ok (s, rest)
unfolding intent_discriminant
read_intent ClientIntent.status rest = rw (decode_varint-encode_varint (pos 1) rest (omega arith))
read_intent ClientIntent.login rest = rw (decode_varint-encode_varint (pos 2) rest (omega arith))
read_intent ClientIntent.transfer rest = rw (decode_varint-encode_varint (pos 3) rest (omega arith))

packed_back : (p : BlockPos) → as_signed (2 ^ 64) (as_unsigned (2 ^ 64) (to_packed p)) ≡ to_packed p
packed_back p = as_signed-as_unsigned (2 ^ 64) (to_packed p) (to_packed-IsInt p)

-- The elements of a sequence, one after the other.
decode_elements-encode_elements :
    {A : Type 0} (P : A → Type 0) (write : A → Result Bytes) (read : Bytes → Result (A × Bytes))
    → ((a : A) → P a → Survives (write a) read a)
    → (xs : List A) → All P xs
    → Survives (Wire.encode_elements write xs) (Wire.decode_elements read (length xs)) xs
unfolding Wire.encode_elements Wire.decode_elements
decode_elements-encode_elements P write read one [] h = ([], refl, λ rest. refl)
decode_elements-encode_elements P write read one (x ∷ xs) h =
    let (first, e, back) = one x h.0 in
    let (others, e', back') = decode_elements-encode_elements P write read one xs h.1 in
    (first ++ others, rw (e, e'), λ rest. rw (append_assoc, back (others ++ rest), back' rest))

module _ ⦃c : Crates⦄ (order : IsByteOrder c) where
  read_uint-put_uint :
      (k n : ℕ) (rest : Bytes)
      → n < 256 ^ k
      → Wire.read_uint k (c.put_uint k n ++ rest) ≡ ok (n, rest)
  unfolding Wire.read_uint
  read_uint-put_uint k n rest h =
      rw (read_exact-append k (c.put_uint k n) rest (order.length_put k n), order.get_put k n h)

  -- Every valid value of a type that has no `RawBytes` is encoded, and read back from the front
  -- of any input that starts with its encoding, of which the rest is left.
  pub decode-encode :
      (t : Wire.Ty) (v : Wire.Val t)
      → self_delimiting t ≡ true
      → IsValid t v
      → Survives (Wire.encode t v) (Wire.decode t) v
  unfolding Wire.encode Wire.decode
  decode-encode Wire.boolean true d h = (1 ∷ [], refl, λ rest. refl)
  decode-encode Wire.boolean false d h = (0 ∷ [], refl, λ rest. refl)
  decode-encode Wire.var_int v d h =
      (encode_varint v, refl, λ rest. decode_varint-encode_varint v rest h)
  decode-encode Wire.string s d h = decode_string-encode_string s h
  decode-encode Wire.raw_bytes bytes d h = cc
  decode-encode Wire.block_pos p d h = (
    c.put_uint 8 (as_unsigned (2 ^ 64) (to_packed p)),
    refl,
    λ rest. rw (read_uint-put_uint 8 _ rest (as_unsigned-lt (2 ^ 64) (to_packed p) (omega arith))) (
        ap (λ (q : BlockPos). ok (q, rest))
          (ap from_packed (packed_back p) ∙ from_packed-to_packed p h)),
  )
  decode-encode Wire.state s d h = (encode_varint (state_discriminant s), refl, read_state s)
  decode-encode Wire.intent s d h = (encode_varint (intent_discriminant s), refl, read_intent s)
  decode-encode Wire.chat m d h = decode_json-encode_json c.chat_to_string c.chat_from_str m h
  decode-encode Wire.status_response r d h =
      decode_json-encode_json c.status_to_string c.status_from_str r h
  decode-encode (Wire.uint k) n d h = (c.put_uint k n, refl, λ rest. read_uint-put_uint k n rest h)
  decode-encode (Wire.sint k) z d h = (
    c.put_uint k (as_unsigned (256 ^ k) z),
    refl,
    λ rest.
        rw
          (read_uint-put_uint k _ rest
            (as_unsigned-lt (256 ^ k) z (one-le-pow k 256 (omega arith))))
          (ap (λ (v : ℤ). ok (v, rest)) (as_signed-as_unsigned (256 ^ k) z h)),
  )
  decode-encode (Wire.byte_array k) bytes d h =
      (bytes, refl, λ rest. read_exact-append k bytes rest h)
  decode-encode (Wire.vec t) xs d h =
      let (body, e, back) =
        decode_elements-encode_elements (IsValid t) (Wire.encode t) (Wire.decode t)
          (λ x valid. decode-encode t x d valid) xs h.1 in
      (
        encode_varint (from_usize (length xs)) ++ body,
        rw (le→leb (length xs) Wire.i32_max h.0, e),
        λ rest. rw (read_length (length xs) body rest h.0) (back rest),
      )
  decode-encode (Wire.option t) none d h = (0 ∷ [], refl, λ rest. refl)
  decode-encode (Wire.option t) (some x) d h =
      let (body, e, back) = decode-encode t x d h in (1 ∷ body, rw e, λ rest. rw (back rest))
  decode-encode Wire.end v d h = ([], refl, λ rest. refl)
  decode-encode (Wire.field name t r) (v, vs) d h =
      let (first, e, back) = decode-encode t v (ground arith) h.0 in
      let (others, e', back') = decode-encode r vs (ground arith) h.1 in
      (first ++ others, rw (e, e'), λ rest. rw (append_assoc, back (others ++ rest), back' rest))

  whole :
      {A : Type 0} (written : Result Bytes) (read : Bytes → Result (A × Bytes)) (a : A)
      → Survives written read a
      → SurvivesInFrame written read a
  whole written read a (bytes, e, back) = (bytes, e, rw append-nil at (back []))

  -- The end of a struct writes and reads nothing.
  end_codec :
      (t : Wire.Ty) (v : Wire.Val t)
      → is_end t ≡ true
      → (Wire.encode t v ≡ ok []) × ((bytes : Bytes) → Wire.decode t bytes ≡ ok (v, bytes))
  unfolding Wire.encode Wire.decode
  end_codec Wire.end v h = (refl, λ bytes. refl)
  end_codec Wire.boolean v h = cc
  end_codec Wire.var_int v h = cc
  end_codec Wire.string v h = cc
  end_codec Wire.raw_bytes v h = cc
  end_codec Wire.block_pos v h = cc
  end_codec Wire.state v h = cc
  end_codec Wire.intent v h = cc
  end_codec Wire.chat v h = cc
  end_codec Wire.status_response v h = cc
  end_codec (Wire.uint k) v h = cc
  end_codec (Wire.sint k) v h = cc
  end_codec (Wire.byte_array k) v h = cc
  end_codec (Wire.vec k) v h = cc
  end_codec (Wire.option k) v h = cc
  end_codec (Wire.field name t r) v h = cc

  -- Every valid value of a type whose `RawBytes`, if any, stands at its end is encoded, and read
  -- back from its encoding alone with nothing left.
  pub decode-encode_frame :
      (t : Wire.Ty) (v : Wire.Val t)
      → fills_frame t ≡ true
      → IsValid t v
      → SurvivesInFrame (Wire.encode t v) (Wire.decode t) v
  unfolding Wire.encode Wire.decode
  decode-encode_frame Wire.raw_bytes bytes d h = (bytes, refl, refl)
  decode-encode_frame (Wire.option t) none d h = (0 ∷ [], refl, refl)
  decode-encode_frame (Wire.option t) (some x) d h =
      let (body, e, back) = decode-encode_frame t x d h in (1 ∷ body, rw e, rw back)
  decode-encode_frame (Wire.field name t r) (v, vs) d h =
      elim (Bool-cases (self_delimiting t && fills_frame r)) [
        | inl inner ↦
            let (first, e, back) = decode-encode t v (ground arith) h.0 in
            let (others, e', back') = decode-encode_frame r vs (ground arith) h.1 in
            (first ++ others, rw (e, e'), rw (back others, back'))
        | inr last ↦
            let (first, e, back) = decode-encode_frame t v (ground arith) h.0 in
            let (nothing, back') = end_codec r vs (ground arith) in
            (first ++ [], rw (e, nothing), rw (append-nil, back, back'))
      ]
  decode-encode_frame (Wire.vec t) xs d h = whole _ _ _ (decode-encode (Wire.vec t) xs d h)
  decode-encode_frame Wire.boolean v d h = whole _ _ _ (decode-encode Wire.boolean v d h)
  decode-encode_frame Wire.var_int v d h = whole _ _ _ (decode-encode Wire.var_int v d h)
  decode-encode_frame Wire.string v d h = whole _ _ _ (decode-encode Wire.string v d h)
  decode-encode_frame Wire.block_pos v d h = whole _ _ _ (decode-encode Wire.block_pos v d h)
  decode-encode_frame Wire.state v d h = whole _ _ _ (decode-encode Wire.state v d h)
  decode-encode_frame Wire.intent v d h = whole _ _ _ (decode-encode Wire.intent v d h)
  decode-encode_frame Wire.chat v d h = whole _ _ _ (decode-encode Wire.chat v d h)
  decode-encode_frame Wire.status_response v d h =
      whole _ _ _ (decode-encode Wire.status_response v d h)
  decode-encode_frame Wire.end v d h = whole _ _ _ (decode-encode Wire.end v d h)
  decode-encode_frame (Wire.uint k) v d h = whole _ _ _ (decode-encode (Wire.uint k) v d h)
  decode-encode_frame (Wire.sint k) v d h = whole _ _ _ (decode-encode (Wire.sint k) v d h)
  decode-encode_frame (Wire.byte_array k) v d h =
      whole _ _ _ (decode-encode (Wire.byte_array k) v d h)
