-- ===== src/Server/Connection/Frame/Soundness.antt =====
-- What `try_parse_packet` does on any buffer.
use statik_rs.Prelude.{ℕ, ◌+◌, ◌-◌, ◌≤◌, ◌<◌, ◌≡◌, ◌≢◌, refl, sym, ap, ◌∙◌, arith, false}
use statik_rs.Prelude.{◌++◌, inl, inr, Option, none, some, length, take, drop, leb, ltb}
use statik_rs.Prelude.{
  length-append, drop-append, length-take, take-append-drop, Bool-cases, leb→le,
}
use statik_rs.Prelude.Int.{ℤ, pos, negsuc}
use statik_rs.Core.Crates.{Crates}
use statik_rs.Core.Result.{Error, Result, ok, err, Bytes}
use statik_rs.Core.State.{State}
use statik_rs.Core.VarInt.{decode_varint}
use statik_rs.Core.VarInt.Decode.{decode_varint_ok}
use statik_rs.Server.Connection.{Connection, Zlib}
use statik_rs.Server.Connection.Frame.{
  max_packet_size, is_eof, unpack, received, advance, decode_unpacked, open_frame, parse_declared,
  parse_read, try_parse_packet,
}
use statik_rs.Server.Protocol.{DecodedC2s, decode_c2s}

ltb-false : (a b : ℕ) → ltb a b ≡ false → b ≤ a
ltb-false a b h = ground arith

nothing-ne :
    {conn conn' : Connection} {packet : DecodedC2s}
    → ◌≢◌ {A = Result (Option DecodedC2s) × Connection} (ok none, conn) (ok (some packet), conn')
nothing-ne h = cc

failed-ne :
    {conn conn' : Connection} {packet : DecodedC2s} {e : Error}
    → ◌≢◌ {A = Result (Option DecodedC2s) × Connection} (err e, conn) (ok (some packet), conn')
failed-ne h = cc

module _ ⦃z : Zlib⦄ ⦃c : Crates⦄ where
  -- Nothing but the buffer differs.
  abbrev pub OnlyBuffer : Connection → Connection → Type 0
  OnlyBuffer conn conn' = conn' ≡ record conn { buffer = conn'.buffer }

  -- What a call that returns a packet has found.
  abbrev pub Found : Connection → DecodedC2s → Connection → Type 0
  Found conn packet conn' =
      (header : Bytes) × (framed : Bytes) × (payload : Bytes) × (conn.buffer
        ≡ header ++ (framed ++ conn'.buffer))
      × (decode_varint conn.buffer ≡ ok (pos (length framed), framed ++ conn'.buffer))
      × (1 ≤ length header)
      × (length header ≤ 5)
      × (length framed ≤ max_packet_size)
      × (unpack conn.compression_threshold framed ≡ ok (some payload))
      × (decode_c2s conn.protocol conn.state payload ≡ ok packet)
      × OnlyBuffer conn conn'

  received-some :
      (s : State) (r : Result DecodedC2s) (packet : DecodedC2s)
      → received s r ≡ ok (some packet)
      → r ≡ ok packet
  received-some s (ok p) packet h = cc
  received-some State.play (err e) packet h = cc
  received-some State.configuration (err e) packet h = cc
  received-some State.handshake (err e) packet h = cc
  received-some State.status (err e) packet h = cc
  received-some State.login (err e) packet h = cc

  -- The payload that a complete frame was found to have.
  decode_unpacked-some :
      (n : ℕ) (conn conn' : Connection) (packet : DecodedC2s) (r : Result (Option Bytes))
      → decode_unpacked n r conn ≡ (ok (some packet), conn')
      → (payload : Bytes) × (r ≡ ok (some payload))
        × (decode_c2s conn.protocol conn.state payload ≡ ok packet)
        × (conn' ≡ advance n conn)
  decode_unpacked-some n conn conn' packet (ok none) h = cc
  decode_unpacked-some n conn conn' packet (ok (some payload)) h = (
    payload,
    refl,
    received-some conn.state (decode_c2s conn.protocol conn.state payload) packet (ap (λ p. p.0) h),
    sym (ap (λ p. p.1) h),
  )
  decode_unpacked-some n conn conn' packet (err e) h = cc

  parse_declared-some :
      (conn conn' : Connection) (packet : DecodedC2s) (declared : ℤ) (header_len : ℕ)
      → parse_declared declared header_len conn ≡ (ok (some packet), conn')
      → (n : ℕ) × (declared ≡ pos n)
        × (n ≤ max_packet_size)
        × (header_len + n ≤ length conn.buffer)
        × (open_frame n (advance header_len conn) ≡ (ok (some packet), conn'))
  parse_declared-some conn conn' packet (negsuc n) header_len h = cc
  parse_declared-some conn conn' packet (pos n) header_len h =
      elim (Bool-cases (leb n max_packet_size)) [
        | inl fits ↦ elim (Bool-cases (ltb (length conn.buffer) (header_len + n))) [
          | inl short ↦ absurd (nothing-ne (rw (fits, short) at h))
          | inr there ↦ (
            n,
            refl,
            leb→le n max_packet_size fits,
            ltb-false (length conn.buffer) (header_len + n) there,
            rw (fits, there) at h,
          )
        ]
        | inr long ↦ absurd (failed-ne (rw long at h))
      ]

  parse_read-some :
      (conn conn' : Connection) (packet : DecodedC2s) (r : Result (ℤ × Bytes))
      → parse_read r conn ≡ (ok (some packet), conn')
      → (declared : ℤ) × (rest : Bytes) × (r ≡ ok (declared, rest))
        × (parse_declared declared (length conn.buffer - length rest) conn
            ≡ (ok (some packet), conn'))
  parse_read-some conn conn' packet (ok (declared, rest)) h = (declared, rest, refl, h)
  parse_read-some conn conn' packet (err e) h = elim (Bool-cases (is_eof e)) [
    | inl eof ↦ absurd (nothing-ne (rw eof at h))
    | inr other ↦ absurd (failed-ne (rw other at h))
  ]

  Found-at :
      (conn conn' : Connection) (packet : DecodedC2s) (n : ℕ) (header rest : Bytes)
      → conn.buffer ≡ header ++ rest
      → n ≤ max_packet_size
      → 1 ≤ length header
      → length header ≤ 5
      → decode_varint conn.buffer ≡ ok (pos n, rest)
      → length conn.buffer - length rest + n ≤ length conn.buffer
      → open_frame n (advance (length conn.buffer - length rest) conn) ≡ (ok (some packet), conn')
      → Found conn packet conn'
  unfolding open_frame
  Found-at conn conn' packet n header rest split small low high read complete opened =
      let lengths : length conn.buffer ≡ length header + length rest =
        ap (λ (l : Bytes). length l) split ∙ length-append header rest in
      let at_rest : drop (length conn.buffer - length rest) conn.buffer ≡ rest =
        ap (λ (k : ℕ). drop k conn.buffer) (omega arith)
        ∙ ap (drop (length header)) split
        ∙ drop-append header rest in
      let from_rest : open_frame n (record conn { buffer = rest }) ≡ (ok (some packet), conn') =
        rw at_rest at opened in
      let (payload, unpacked, decoded, left) =
        decode_unpacked-some n (record conn { buffer = rest }) conn' packet
          (unpack conn.compression_threshold (take n rest)) from_rest in
      let behind : conn'.buffer ≡ drop n rest = ap (λ (k : Connection). k.buffer) left in
      let whole : take n rest ++ conn'.buffer ≡ rest =
        ap (λ (l : Bytes). take n rest ++ l) behind ∙ take-append-drop n rest in
      let size : length (take n rest) ≡ n = omega (arith, length-take n rest, lengths) in
      (
        header,
        take n rest,
        payload,
        rw whole split,
        rw (whole, size) read,
        low,
        high,
        omega arith,
        unpacked,
        decoded,
        left ∙ ap (λ (b : Bytes). record conn { buffer = b }) (sym behind),
      )

  -- A packet that `try_parse_packet` returns was decoded, in the state of the connection, from the
  -- payload of one frame at the front of the buffer: a length of 1 to 5 bytes and as many bytes as it
  -- says, at most 2097152. These bytes are consumed, and nothing else changes.
  pub try_parse_packet-Found :
      (conn conn' : Connection) (packet : DecodedC2s)
      → try_parse_packet conn ≡ (ok (some packet), conn')
      → Found conn packet conn'
  unfolding try_parse_packet open_frame
  try_parse_packet-Found conn conn' packet h =
      let (declared, rest, read, at_declared) =
        parse_read-some conn conn' packet (decode_varint conn.buffer) h in
      let (n, is_pos, small, complete, opened) =
        parse_declared-some conn conn' packet declared (length conn.buffer - length rest)
          at_declared in
      let (header, (split, again), low, high, in_range) =
        decode_varint_ok conn.buffer declared rest read in
      Found-at conn conn' packet n header rest split small low high
        (read ∙ ap (λ (v : ℤ). ok (v, rest)) is_pos) complete opened

  -- Each packet that `try_parse_packet` returns makes the buffer shorter.
  pub try_parse_packet_shrinks :
      (conn conn' : Connection) (packet : DecodedC2s)
      → try_parse_packet conn ≡ (ok (some packet), conn')
      → length conn'.buffer < length conn.buffer
  try_parse_packet_shrinks conn conn' packet h =
      let (header, framed, payload, split, read, low, high, small, unpacked, decoded, left) =
        try_parse_packet-Found conn conn' packet h in
      omega (
        arith,
        ap (λ (l : Bytes). length l) split,
        length-append header (framed ++ conn'.buffer),
        length-append framed conn'.buffer,
      )

  open_frame_only :
      (conn : Connection) (n : ℕ) (r : Result (Option Bytes))
      → OnlyBuffer conn (decode_unpacked n r conn).1
  open_frame_only conn n (ok none) = refl
  open_frame_only conn n (ok (some payload)) = refl
  open_frame_only conn n (err e) = refl

  parse_declared_only :
      (conn : Connection) (declared : ℤ) (header_len : ℕ)
      → OnlyBuffer conn (parse_declared declared header_len conn).1
  unfolding open_frame
  parse_declared_only conn (negsuc n) header_len = refl
  parse_declared_only conn (pos n) header_len = elim (Bool-cases (leb n max_packet_size)) [
    | inl fits ↦ elim (Bool-cases (ltb (length conn.buffer) (header_len + n))) [
      | inl short ↦ rw (fits, short) refl
      | inr there ↦
          rw (fits, there)
            (open_frame_only (advance header_len conn) n
              (unpack conn.compression_threshold (take n (drop header_len conn.buffer))))
    ]
    | inr long ↦ rw long refl
  ]

  parse_read_only :
      (conn : Connection) (r : Result (ℤ × Bytes)) → OnlyBuffer conn (parse_read r conn).1
  parse_read_only conn (ok (declared, rest)) =
      parse_declared_only conn declared (length conn.buffer - length rest)
  parse_read_only conn (err e) = elim (Bool-cases (is_eof e)) [
    | inl eof ↦ rw eof refl
    | inr other ↦ rw other refl
  ]

  -- Whatever `try_parse_packet` returns, it changes the buffer only.
  pub try_parse_packet-OnlyBuffer : (conn : Connection) → OnlyBuffer conn (try_parse_packet conn).1
  unfolding try_parse_packet
  try_parse_packet-OnlyBuffer conn = parse_read_only conn (decode_varint conn.buffer)
