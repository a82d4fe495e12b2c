-- ===== src/Tests/Frames.antt =====
-- `write_packet` and `try_parse_packet` on examples.
use statik_rs.Prelude.{◌≡◌, refl, none, some, [], ◌∷◌, ◌++◌, length, take, arith, inl}
use statik_rs.Prelude.{lt_wf}
use statik_rs.Prelude.Int.{pos}
use statik_rs.Core.Result.{ok, err, Bytes, unexpected_eof, no_packet}
use statik_rs.Core.State.{State}
use statik_rs.Core.VarInt.{encode_varint, encode_loop, decode_varint, decode_loop, from_usize}
use statik_rs.Core.Wire.{encode, decode}
use statik_rs.Derive.{encode_packet, decode_packet, decode_variant, decode_in_state}
use statik_rs.Proto.V1_20_1.C2s as C2s20
use statik_rs.Proto.V1_21_1.C2s as C2s21
use statik_rs.Server.Config.{default_config}
use statik_rs.Server.Connection.{Connection, new_connection}
use statik_rs.Server.Connection.Frame.{
  framed_body, frame, unpack, received, open_frame, try_parse_packet,
}
use statik_rs.Server.Connection.Frame.RoundTrip.{
  try_parse_packet-frame, try_parse_packet-take, try_parse_packet_desync,
}
use statik_rs.Server.Connection.Frame.Delivery.{
  try_parse_packet-frame_20, try_parse_packet-frame_21,
}
use statik_rs.Server.Connection.Frame.Opening.{Opens}
use statik_rs.Server.Connection.Frame.Received.{IsInDomain, try_parse_packet-IsInDomain}
use statik_rs.Server.Connection.Frame.Soundness.{Found, try_parse_packet-Found}
use statik_rs.Server.Connection.Loop.{Outcome, handle_connection}
use statik_rs.Server.Connection.Loop.Skips.{framed_before, handle_connection_skips}
use statik_rs.Server.Protocol.{ProtocolKind, DecodedC2s, decode_c2s}
use statik_rs.Tests.Instances.{crates, crates-IsByteOrder, zlib, zlib-IsZlib, assets}

two_bytes : length (encode_varint (pos 300)) ≡ 2
unfolding encode_varint encode_loop lt_wf
two_bytes = refl

-- A ping with payload 5, compressed above a threshold of 5 bytes.
abbrev staging : Bytes
staging = 1 ∷ 0 ∷ 0 ∷ 0 ∷ 0 ∷ 0 ∷ 0 ∷ 0 ∷ 5 ∷ []

abbrev conn_20 : Connection
conn_20 = record (new_connection default_config ProtocolKind.v1_20_1) {
  state = State.status;
  compression_threshold = some (pos 5);
}

abbrev conn_21 : Connection
conn_21 = record (new_connection default_config ProtocolKind.v1_21_1) { state = State.status }

ping_encoded : encode_packet ⦃c = crates⦄ C2s20.Status.c2s_ping (pos 5, tt) ≡ ok staging
unfolding encode_packet encode encode_varint encode_loop lt_wf
ping_encoded = refl

ping_framed : framed_body ⦃z = zlib⦄ (some (pos 5)) staging ≡ ok (9 ∷ staging)
unfolding framed_body encode_varint encode_loop lt_wf
ping_framed = refl

ping_plain : framed_body ⦃z = zlib⦄ none staging ≡ ok staging
unfolding framed_body
ping_plain = refl

try_parse_packet-frame_example :
    (bytes : Bytes) × (frame ⦃z = zlib⦄ ⦃c = crates⦄
        (some (pos 5))
        C2s20.Status.c2s_ping
        (pos 5, tt)
      ≡ ok bytes)
    × (try_parse_packet ⦃z = zlib⦄ ⦃c = crates⦄ (record conn_20 { buffer = bytes ++ 7 ∷ [] }) ≡ (
      received State.status (decode_c2s ⦃c = crates⦄ ProtocolKind.v1_20_1 State.status staging),
      record conn_20 { buffer = 7 ∷ [] },
    ))
try_parse_packet-frame_example =
    try_parse_packet-frame ⦃z = zlib⦄ ⦃c = crates⦄ zlib-IsZlib C2s20.Status.c2s_ping (pos 5, tt)
      conn_20 staging (9 ∷ staging) (7 ∷ []) ping_encoded (omega arith) ping_framed (omega arith)

try_parse_packet-frame_20_example :
    (bytes : Bytes) × (frame ⦃z = zlib⦄ ⦃c = crates⦄
        (some (pos 5))
        C2s20.Status.c2s_ping
        (pos 5, tt)
      ≡ ok bytes)
    × (try_parse_packet ⦃z = zlib⦄ ⦃c = crates⦄ (record conn_20 { buffer = bytes ++ 7 ∷ [] }) ≡ (
      ok (some (DecodedC2s.v1_20_1 (C2s20.C2sPacket.ping, (pos 5, tt)))),
      record conn_20 { buffer = 7 ∷ [] },
    ))
try_parse_packet-frame_20_example =
    try_parse_packet-frame_20 ⦃c = crates⦄ ⦃z = zlib⦄ crates-IsByteOrder zlib-IsZlib
      C2s20.C2sPacket.ping (pos 5, tt) (omega arith, tt) conn_20 staging (9 ∷ staging) (7 ∷ []) refl
      refl ping_encoded (omega arith) ping_framed (omega arith)

try_parse_packet-frame_21_example :
    (bytes : Bytes) × (frame ⦃z = zlib⦄ ⦃c = crates⦄ none C2s21.Status.c2s_ping (pos 5, tt)
      ≡ ok bytes)
    × (try_parse_packet ⦃z = zlib⦄ ⦃c = crates⦄ (record conn_21 { buffer = bytes ++ 7 ∷ [] }) ≡ (
      ok (some (DecodedC2s.v1_21_1 (C2s21.C2sPacket.ping, (pos 5, tt)))),
      record conn_21 { buffer = 7 ∷ [] },
    ))
try_parse_packet-frame_21_example =
    try_parse_packet-frame_21 ⦃c = crates⦄ ⦃z = zlib⦄ crates-IsByteOrder zlib-IsZlib
      C2s21.C2sPacket.ping (pos 5, tt) (omega arith, tt) conn_21 staging staging (7 ∷ []) refl refl
      ping_encoded (omega arith) ping_plain (omega arith)

-- A packet id that the version does not know, below the compression threshold, and a frame behind it.
abbrev playing : Connection
playing = record conn_21 { state = State.play; compression_threshold = some (pos 5) }

stranger_unknown :
    decode_c2s ⦃c = crates⦄ ProtocolKind.v1_21_1 State.play (100 ∷ [])
    ≡ err (no_packet (pos 100) State.play)
unfolding decode_c2s decode_in_state decode_variant decode_varint decode_loop
stranger_unknown = refl

abbrev behind : Bytes
behind = 1 ∷ 0 ∷ []

abbrev stranger : Bytes
stranger = encode_varint (pos 0) ++ 100 ∷ []

stranger-length : length stranger ≡ 2
unfolding encode_varint encode_loop lt_wf
stranger-length = refl

handle_connection_skips_example :
    (try_parse_packet ⦃z = zlib⦄ ⦃c = crates⦄
        (record playing { buffer = framed_before stranger behind })
      ≡ (ok none, record playing { buffer = behind }))
    × (handle_connection ⦃c = crates⦄ ⦃z = zlib⦄ ⦃a = assets⦄ []
          (pos 0)
          (record playing { buffer = framed_before stranger behind })
        ≡ Outcome.waiting (pos 0) (record playing { buffer = behind }))
handle_connection_skips_example =
    handle_connection_skips ⦃c = crates⦄ ⦃z = zlib⦄ ⦃a = assets⦄ playing stranger (100 ∷ []) behind
      (no_packet (pos 100) State.play) (pos 0) (omega (arith, stranger-length))
      (Opens.uncompressed (pos 5) (100 ∷ [])) (inl refl) stranger_unknown

abbrev three_framed : Bytes
three_framed = encode_varint (from_usize 3) ++ 1 ∷ 2 ∷ 3 ∷ []

abbrev half_arrived : Connection
half_arrived = record conn_20 { buffer = take 2 three_framed }

three_framed-length : length three_framed ≡ 4
unfolding encode_varint encode_loop lt_wf
three_framed-length = refl

try_parse_packet-take_example :
    try_parse_packet ⦃z = zlib⦄ ⦃c = crates⦄ half_arrived ≡ (ok none, half_arrived)
try_parse_packet-take_example =
    try_parse_packet-take ⦃z = zlib⦄ ⦃c = crates⦄ half_arrived (1 ∷ 2 ∷ 3 ∷ []) 2 (omega arith)
      (omega (arith, three_framed-length)) refl

abbrev asking : Connection
asking = record conn_21 { buffer = 1 ∷ 0 ∷ 77 ∷ [] }

abbrev asked : Connection
asked = record conn_21 { buffer = 77 ∷ [] }

abbrev request : DecodedC2s
request = DecodedC2s.v1_21_1 (C2s21.C2sPacket.status_request, tt)

asking_parsed : try_parse_packet ⦃z = zlib⦄ ⦃c = crates⦄ asking ≡ (ok (some request), asked)
unfolding try_parse_packet open_frame unpack decode_c2s decode_in_state decode_variant decode_packet
    decode decode_varint decode_loop
asking_parsed = refl

try_parse_packet-Found_example : Found ⦃z = zlib⦄ ⦃c = crates⦄ asking request asked
try_parse_packet-Found_example =
    try_parse_packet-Found ⦃z = zlib⦄ ⦃c = crates⦄ asking asked request asking_parsed

abbrev torn : Connection
torn = record conn_20 { buffer = (encode_varint (from_usize 1) ++ 0x80 ∷ []) ++ 5 ∷ [] }

torn_length : decode_varint (0x80 ∷ []) ≡ err unexpected_eof
unfolding decode_varint decode_loop
torn_length = refl

try_parse_packet_desync_example :
    try_parse_packet ⦃z = zlib⦄ ⦃c = crates⦄ torn
    ≡ (ok none, record torn { buffer = (0x80 ∷ []) ++ 5 ∷ [] })
try_parse_packet_desync_example =
    try_parse_packet_desync ⦃z = zlib⦄ ⦃c = crates⦄ torn (0x80 ∷ []) (5 ∷ []) (pos 5) refl
      (omega arith) torn_length refl

try_parse_packet-IsInDomain_example : IsInDomain ⦃c = crates⦄ request
try_parse_packet-IsInDomain_example =
    try_parse_packet-IsInDomain ⦃c = crates⦄ crates-IsByteOrder ⦃z = zlib⦄ asking asked request
      asking_parsed
