-- ===== src/Server/Connection/Frame.antt =====
-- crates/statik_server/src/connection.rs: `write_packet` and `try_parse_packet`.
pub mod Prefix
pub mod RoundTrip
pub mod Opening
pub mod Delivery
pub mod Soundness
pub mod Received
use statik_rs.Prelude.{ℕ, ◌+◌, ◌-◌, Bool, true, false, Option, none, some, List, [], ◌∷◌, ◌++◌}
use statik_rs.Prelude.{leb, ltb, ◌==◌, if◌then◌else◌, length, take, drop}
use statik_rs.Prelude.Int.{ℤ, pos, negsuc}
use statik_rs.Core.Crates.{Crates}
use statik_rs.Core.Result.{Error, Result, ok, err, ◌>>=◌, ensure, Bytes, unexpected_eof, write_zero}
use statik_rs.Core.Result.{frame_length, compressed_length, zlib_failed}
use statik_rs.Core.State.{State}
use statik_rs.Core.VarInt.{encode_varint, decode_varint, from_usize, to_usize}
use statik_rs.Derive.{Packet, Body, encode_packet}
use statik_rs.Server.Connection.{Connection, Zlib}
use statik_rs.Server.Exec.{Exec}
use statik_rs.Server.Protocol.{DecodedC2s, decode_c2s}

-- crates/statik_core/src/lib.rs, `MAX_PACKET_SIZE`.
abbrev pub max_packet_size : ℕ
max_packet_size = 2097152

abbrev pub is_eof : Error → Bool
is_eof unexpected_eof = true
is_eof _ = false

-- What is returned for a decoded body.
abbrev pub received : State → Result DecodedC2s → Result (Option DecodedC2s)
received state (ok packet) = ok (some packet)
received State.play (err e) = ok none
received State.configuration (err e) = ok none
received State.handshake (err e) = err e
received State.status (err e) = err e
received State.login (err e) = err e

abbrev pub advance : ℕ → Connection → Connection
advance n conn = record conn { buffer = drop n conn.buffer }

module _ ⦃z : Zlib⦄ where
  abbrev pub deflated : Bytes → Option Bytes → Result Bytes
  deflated staging none = err zlib_failed
  deflated staging (some compressed) =
      ok (encode_varint (from_usize (length staging)) ++ compressed)

  -- The buffer `framed` of `write_packet`.
  unfoldable pub framed_body : Option ℤ → Bytes → Result Bytes
  framed_body none staging = ok staging
  framed_body (some threshold) staging =
      if leb (to_usize threshold) (length staging)
      then deflated staging (z.deflate staging)
      else ok (encode_varint (pos 0) ++ staging)

  -- The length prefix is written to a buffer of 5 bytes, which holds no more.
  unfoldable pub with_length : Bytes → Result Bytes
  with_length framed =
      let prefix = encode_varint (from_usize (length framed)) in
      ensure (leb (length prefix) 5) write_zero (ok (prefix ++ framed))

  -- What `write_packet` writes to the stream.
  unfoldable pub frame : ⦃c : Crates⦄ → Option ℤ → (p : Packet) → Body p → Result Bytes
  frame threshold p body = do
    staging ← encode_packet p body
    framed ← framed_body threshold staging
    with_length framed

  abbrev pub send : Result Bytes → Exec Connection (Unit {0})
  send (ok bytes) conn = (ok tt, record conn { stream = conn.stream ++ bytes })
  send (err e) conn = (err e, conn)

  -- `write_packet`. A failing socket is not modelled.
  unfoldable pub write_packet : ⦃c : Crates⦄ → (p : Packet) → Body p → Exec Connection (Unit {0})
  write_packet p body conn = send (frame conn.compression_threshold p body) conn

  abbrev inflated : Option Bytes → Result (Option Bytes)
  inflated none = err zlib_failed
  inflated (some bytes) = ok (some bytes)

  -- The compressed payload behind its `Data Length`.
  abbrev unpack_declared : ℕ → ℕ → Bytes → Result (Option Bytes)
  unpack_declared threshold data_len payload =
      if data_len == 0
      then ok (some payload)
      else ensure (leb threshold data_len) compressed_length (
          ensure (leb data_len max_packet_size) compressed_length
            (inflated (z.inflate data_len payload)))

  abbrev unpack_read : ℤ → Result (ℤ × Bytes) → Result (Option Bytes)
  unpack_read threshold (ok (data_len, payload)) =
      unpack_declared (to_usize threshold) (to_usize data_len) payload
  unpack_read threshold (err e) = if is_eof e then ok none else err e

  -- The body of a frame; `ok none` is the early return of `Ok(None)`.
  unfoldable pub unpack : Option ℤ → Bytes → Result (Option Bytes)
  unpack none body = ok (some body)
  unpack (some threshold) body = unpack_read threshold (decode_varint body)

  module _ ⦃c : Crates⦄ where
    abbrev pub decode_unpacked : ℕ → Result (Option Bytes) → Exec Connection (Option DecodedC2s)
    decode_unpacked n (ok none) conn = (ok none, conn)
    decode_unpacked n (ok (some bytes)) conn =
        (received conn.state (decode_c2s conn.protocol conn.state bytes), advance n conn)
    decode_unpacked n (err e) conn = (err e, conn)

    -- The body of n bytes at the front of the buffer, which is complete.
    unfoldable pub open_frame : ℕ → Exec Connection (Option DecodedC2s)
    unfolding unpack
    open_frame n conn =
        decode_unpacked n (unpack conn.compression_threshold (take n conn.buffer)) conn

    abbrev pub parse_declared : ℤ → ℕ → Exec Connection (Option DecodedC2s)
    parse_declared (pos n) header_len conn =
        if leb n max_packet_size
        then if ltb (length conn.buffer) (header_len + n)
          then (ok none, conn)
          else open_frame n (advance header_len conn)
        else (err frame_length, conn)
    parse_declared (negsuc n) header_len conn = (err frame_length, conn)

    abbrev pub parse_read : Result (ℤ × Bytes) → Exec Connection (Option DecodedC2s)
    parse_read (ok (declared, rest)) conn =
        parse_declared declared (length conn.buffer - length rest) conn
    parse_read (err e) conn = if is_eof e then (ok none, conn) else (err e, conn)

    -- `try_parse_packet`.
    unfoldable pub try_parse_packet : Exec Connection (Option DecodedC2s)
    unfolding open_frame
    try_parse_packet conn = parse_read (decode_varint conn.buffer) conn
