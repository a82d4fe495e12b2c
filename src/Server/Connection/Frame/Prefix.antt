-- ===== src/Server/Connection/Frame/Prefix.antt =====
-- The length in front of a frame: it is always written, and found again, whole or not at all.
use statik_rs.Prelude.{ℕ, ◌^◌, ◌<◌, ◌≡◌, ◌≢◌, refl, sym, ap, ◌∙◌, arith}
use statik_rs.Prelude.{[], ◌++◌, append_assoc, append-nil, inl, inr}
use statik_rs.Prelude.{length, take, drop, length-append, length-drop, take-append-drop}
use statik_rs.Prelude.{le→leb}
use statik_rs.Prelude.Int.{ℤ, IsInt}
use statik_rs.Core.Result.{Error, Result, ok, err, Bytes, unexpected_eof, ok_rest, err-ne-ok}
use statik_rs.Core.VarInt.{encode_varint, decode_varint, from_usize}
use statik_rs.Core.VarInt.Encode.{encode_varint-HasShape}
use statik_rs.Core.VarInt.Decode.{decode_varint_ok, decode_varint_err}
use statik_rs.Core.VarInt.RoundTrip.{decode_varint-encode_varint}
use statik_rs.Server.Connection.{Zlib}
use statik_rs.Server.Connection.Frame.{with_length}

-- The 5 bytes that are set aside for the length suffice, for a body of any length: the frame is the
-- length as a VarInt and the body.
pub with_length_lem :
    ⦃z : Zlib⦄
    → (framed : Bytes)
    → with_length framed ≡ ok (encode_varint (from_usize (length framed)) ++ framed)
unfolding with_length
with_length_lem framed =
    let v = from_usize (length framed) in
    rw (le→leb (length (encode_varint v)) 5 (omega (arith, (encode_varint-HasShape v).2)))

no_tail : (a b : Bytes) → a ++ b ≡ [] → length b ≡ 0
no_tail a b e = omega (arith, length-append a b, ap (λ (l : Bytes). length l) e)

-- The encoding of an `i32`, cut off anywhere before its end, reads as the end of the input.
pub decode_varint-take :
    (v : ℤ) (n : ℕ)
    → IsInt (2 ^ 32) v
    → n < length (encode_varint v)
    → decode_varint (take n (encode_varint v)) ≡ err unexpected_eof
decode_varint-take v n fits h = cut (decode_varint part) refl
  where
    part : Bytes
    part = take n (encode_varint v)

    tail : Bytes
    tail = drop n (encode_varint v)

    tail_left : length tail ≢ 0
    tail_left e = omega (arith, length-drop n (encode_varint v), e)

    whole : decode_varint (part ++ tail) ≡ ok (v, [])
    whole =
        ap decode_varint (take-append-drop n (encode_varint v) ∙ sym (append-nil _))
        ∙ decode_varint-encode_varint v [] fits

    cut :
        (r : Result (ℤ × Bytes)) → decode_varint part ≡ r → decode_varint part ≡ err unexpected_eof
    cut (ok (v', rest)) e =
        let (used, (split, again), low, high, in_range) = decode_varint_ok part v' rest e in
        let joined : part ++ tail ≡ used ++ (rest ++ tail) =
          ap (λ (l : Bytes). l ++ tail) split ∙ append_assoc used rest tail in
        let none_left : length tail ≡ 0 =
          no_tail rest tail
            (ok_rest (sym (again (rest ++ tail)) ∙ sym (ap decode_varint joined) ∙ whole)) in
        absurd (tail_left none_left)
    cut (err e) failed = elim (decode_varint_err part e failed) [
      | inl (eof, few, all) ↦ failed ∙ ap (λ (x : Error). err x) eof
      | inr (long, many, all, still) ↦ absurd (err-ne-ok (sym (still tail) ∙ whole))
    ]
