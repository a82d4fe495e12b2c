-- ===== src/Server/Connection/Frame/RoundTrip.antt =====
-- What `write_packet` puts on the stream is what `try_parse_packet` takes from the buffer.
use statik_rs.Prelude.{ℕ, ◌+◌, ◌-◌, ◌≤◌, ◌<◌, ◌≡◌, refl, sym, ap, ◌∙◌, true, false, arith}
use statik_rs.Prelude.{◌++◌, append_assoc, inl, inr, Option, none, some}
use statik_rs.Prelude.{length, take, drop, length-append, take-append, drop-append, leb, ltb}
use statik_rs.Prelude.{take-append_le, take-append_ge, lt→ltb, length-take}
use statik_rs.Prelude.{le→leb, Bool-cases, leb→le, ltb→lt}
use statik_rs.Prelude.Int.{ℤ, pos}
use statik_rs.Core.Crates.{Crates}
use statik_rs.Core.Result.{unexpected_eof, ok, err, >>=-eq-ok, Bytes, ok_inj, err-ne-ok}
use statik_rs.Core.VarInt.{encode_varint, decode_varint, from_usize, to_usize}
use statik_rs.Core.VarInt.Encode.{encode_varint-HasShape}
use statik_rs.Core.VarInt.RoundTrip.{decode_varint-encode_varint}
use statik_rs.Core.Wire.{encode}
use statik_rs.Derive.{Packet, Body, encode_packet}
use statik_rs.Server.Connection.{Connection, Zlib, IsZlib}
use statik_rs.Server.Connection.Frame.{
  max_packet_size, framed_body, frame, unpack, deflated, received, open_frame, parse_read,
  try_parse_packet, decode_unpacked,
}
use statik_rs.Server.Connection.Frame.Prefix.{with_length_lem, decode_varint-take}
use statik_rs.Server.Protocol.{decode_c2s}

pub from_usize_small : (n : ℕ) → n ≤ max_packet_size → from_usize n ≡ pos n
from_usize_small n h = ground arith

ltb-ge : (a b : ℕ) → b ≤ a → ltb a b ≡ false
ltb-ge a b h = ground arith

ltb-false : (a b : ℕ) → ltb a b ≡ false → b ≤ a
ltb-false a b h = ground arith

module _ ⦃z : Zlib⦄ where
  unpack_deflated :
      IsZlib z
      → (threshold : ℤ) (staging d framed : Bytes) → to_usize threshold ≤ length staging
      → 1 ≤ length staging
      → length staging ≤ max_packet_size
      → z.deflate staging ≡ some d
      → unpack (some threshold) (encode_varint (from_usize (length staging)) ++ d)
        ≡ ok (some staging)
  unfolding unpack
  unpack_deflated zlib threshold staging d framed reached some_byte small e =
      let n = length staging in
      rw (from_usize_small n small, decode_varint-encode_varint (pos n) d (omega arith))
        (grind (arith, zlib.inflate-deflate staging d e))

  -- The payload is found again, compressed or not.
  pub unpack-framed_body :
      IsZlib z
      → (threshold : Option ℤ) (staging framed : Bytes) → 1 ≤ length staging
      → length staging ≤ max_packet_size
      → framed_body threshold staging ≡ ok framed
      → unpack threshold framed ≡ ok (some staging)
  unfolding framed_body unpack
  unpack-framed_body zlib none staging framed some_byte small e =
      ap (λ (b : Bytes). ok (some b)) (sym (ok_inj e))
  unpack-framed_body zlib (some threshold) staging framed some_byte small e =
      elim (Bool-cases (leb (to_usize threshold) (length staging))) [
        | inl reached ↦ deflate_cases (z.deflate staging) refl (rw reached at e) reached
        | inr below ↦
            let plain : ok (encode_varint (pos 0) ++ staging) ≡ ok framed = rw below at e in
            rw (← ok_inj plain, decode_varint-encode_varint (pos 0) staging (omega arith))
      ]
    where
      deflate_cases :
          (d : Option Bytes)
          → z.deflate staging ≡ d
          → deflated staging (z.deflate staging) ≡ ok framed
          → leb (to_usize threshold) (length staging) ≡ true
          → unpack (some threshold) framed ≡ ok (some staging)
      deflate_cases none same e reached = absurd (err-ne-ok (rw same at e))
      deflate_cases (some d) same e reached =
          let there : ok (encode_varint (from_usize (length staging)) ++ d) ≡ ok framed =
            rw same at e in
          rw (← ok_inj there) (
            unpack_deflated zlib threshold staging d framed
              (leb→le (to_usize threshold) (length staging) reached) some_byte small same)

  module _ ⦃c : Crates⦄ where
    -- A buffer that starts with a frame.
    pub try_parse-with_length :
        (conn : Connection) (framed rest : Bytes)
        → length framed ≤ max_packet_size
        → conn.buffer ≡ (encode_varint (from_usize (length framed)) ++ framed) ++ rest
        → try_parse_packet conn
          ≡ decode_unpacked
              (length framed)
              (unpack conn.compression_threshold framed)
              (record conn { buffer = framed ++ rest })
    unfolding try_parse_packet open_frame
    try_parse-with_length conn framed rest small at =
        rw
          (
            read,
            le→leb n max_packet_size small,
            ltb-ge (length conn.buffer) (length conn.buffer - length (framed ++ rest) + n)
                (omega (arith, lengths, length-append framed rest)),
            header,
            drop_prefix,
            take-append framed rest,
          )
          refl
      where
        n : ℕ
        n = length framed

        prefix : Bytes
        prefix = encode_varint (from_usize n)

        split : conn.buffer ≡ prefix ++ (framed ++ rest)
        split = at ∙ append_assoc prefix framed rest

        read : decode_varint conn.buffer ≡ ok (pos n, framed ++ rest)
        read =
            ap decode_varint split
            ∙ ap (λ (v : ℤ). decode_varint (encode_varint v ++ (framed ++ rest)))
                (from_usize_small n small)
            ∙ decode_varint-encode_varint (pos n) (framed ++ rest) (omega arith)

        lengths : length conn.buffer ≡ length prefix + length (framed ++ rest)
        lengths = ap (λ (l : Bytes). length l) split ∙ length-append prefix (framed ++ rest)

        header : length conn.buffer - length (framed ++ rest) ≡ length prefix
        header = omega (arith, lengths)

        drop_prefix : drop (length prefix) conn.buffer ≡ framed ++ rest
        drop_prefix = ap (drop (length prefix)) split ∙ drop-append prefix (framed ++ rest)

    encode_packet_some_byte :
        (p : Packet) (body : Body p) (staging : Bytes)
        → encode_packet p body ≡ ok staging
        → 1 ≤ length staging
    unfolding encode_packet
    encode_packet_some_byte p body staging e =
        let (fields, read, made) = >>=-eq-ok (encode p.fields body) _ staging e in
        omega (
          arith,
          (encode_varint-HasShape p.id).1,
          length-append (encode_varint p.id) fields,
          ap (λ (l : Bytes). length l) (ok_inj made),
        )

    -- For a packet whose encoding and whose framed body (compressed when the threshold says so) have
    -- at most 2097152 bytes: `write_packet` writes a frame, and `try_parse_packet` on a buffer that
    -- starts with it consumes exactly the frame and returns what the packet's encoding decodes to.
    pub try_parse_packet-frame :
        IsZlib z
        → (p : Packet) (body : Body p) (conn : Connection) (staging framed rest : Bytes)
        → encode_packet p body ≡ ok staging
        → length staging ≤ max_packet_size
        → framed_body conn.compression_threshold staging ≡ ok framed
        → length framed ≤ max_packet_size
        → (bytes : Bytes) × (frame conn.compression_threshold p body ≡ ok bytes)
          × (try_parse_packet (record conn { buffer = bytes ++ rest }) ≡ (
            received conn.state (decode_c2s conn.protocol conn.state staging),
            record conn { buffer = rest },
          ))
    unfolding frame
    try_parse_packet-frame zlib p body conn staging framed rest encoded small wrapped fits =
        let bytes = encode_varint (from_usize (length framed)) ++ framed in
        let unpacked =
          unpack-framed_body zlib conn.compression_threshold staging framed
            (encode_packet_some_byte p body staging encoded) small wrapped in
        (
          bytes,
          rw (encoded, wrapped) (with_length_lem framed),
          try_parse-with_length (record conn { buffer = bytes ++ rest }) framed rest fits refl
              ∙ rw (unpacked, drop-append framed rest) refl,
        )

    -- As long as the last byte of a frame of at most 2097152 bytes (and its length) is missing,
    -- `try_parse_packet` returns `Ok(None)` and changes nothing, whatever the state and the
    -- compression.
    pub try_parse_packet-take :
        (conn : Connection) (framed : Bytes) (n : ℕ)
        → length framed ≤ max_packet_size
        → n < length (encode_varint (from_usize (length framed)) ++ framed)
        → conn.buffer ≡ take n (encode_varint (from_usize (length framed)) ++ framed)
        → try_parse_packet conn ≡ (ok none, conn)
    unfolding try_parse_packet
    try_parse_packet-take conn framed n fits partial at =
        elim (Bool-cases (ltb n (length prefix))) [
          | inl inside ↦ rw (cut (ltb→lt n (length prefix) inside)) refl
          | inr beyond ↦ waits (ltb-false n (length prefix) beyond)
        ]
      where
        size : ℕ
        size = length framed

        prefix : Bytes
        prefix = encode_varint (from_usize size)

        cut : n < length prefix → decode_varint conn.buffer ≡ err unexpected_eof
        cut h =
            ap decode_varint (at ∙ take-append_le n prefix framed (omega arith))
            ∙ decode_varint-take (from_usize size) n (rw (from_usize_small size fits) (omega arith))
                h

        waits : length prefix ≤ n → parse_read (decode_varint conn.buffer) conn ≡ (ok none, conn)
        waits h =
            rw
              (
                read,
                le→leb size max_packet_size fits,
                lt→ltb (length conn.buffer) (length conn.buffer - length part + size) (
                    omega (
                      arith,
                      lengths,
                      length-append prefix framed,
                      length-take (n - length prefix) framed,
                    )),
              )
              refl
          where
            part : Bytes
            part = take (n - length prefix) framed

            split : conn.buffer ≡ prefix ++ part
            split = at ∙ take-append_ge n prefix framed h

            read : decode_varint conn.buffer ≡ ok (pos size, part)
            read =
                ap decode_varint split
                ∙ ap (λ (v : ℤ). decode_varint (encode_varint v ++ part))
                    (from_usize_small size fits)
                ∙ decode_varint-encode_varint (pos size) part (omega arith)

            lengths : length conn.buffer ≡ length prefix + length part
            lengths = ap (λ (l : Bytes). length l) split ∙ length-append prefix part

    -- With compression on, a frame of at most 2097152 bytes whose `Data Length` is cut off by
    -- the end of the frame is only half consumed: nothing is returned, its length is taken off
    -- the buffer, and its body stays there in front of what follows.
    pub try_parse_packet_desync :
        (conn : Connection) (framed rest : Bytes) (threshold : ℤ)
        → conn.compression_threshold ≡ some threshold
        → length framed ≤ max_packet_size
        → decode_varint framed ≡ err unexpected_eof
        → conn.buffer ≡ (encode_varint (from_usize (length framed)) ++ framed) ++ rest
        → try_parse_packet conn ≡ (ok none, record conn { buffer = framed ++ rest })
    unfolding unpack
    try_parse_packet_desync conn framed rest threshold on fits cut at =
        try_parse-with_length conn framed rest fits at ∙ rw (on, cut) refl
