-- ===== src/Server/Connection/Frame/Delivery.antt =====
-- What a client's frame becomes: the packet it stands for, or nothing where it is not understood.
use statik_rs.Prelude.{
  ◌≤◌, ◌≡◌, refl, sym, ap, ◌∙◌, ◌++◌, ◌⊎◌, inl, inr, none, some, List, length, drop-append,
}
use statik_rs.Core.Crates.{Crates, IsByteOrder}
use statik_rs.Core.Result.{Error, ok, err, Bytes, ok_inj}
use statik_rs.Core.State.{State}
use statik_rs.Core.VarInt.{encode_varint, from_usize}
use statik_rs.Core.Wire.Valid.{IsValid}
use statik_rs.Derive.{Packet, Body, encode_packet, decode_in_state}
use statik_rs.Proto.V1_20_1.C2s as C2s20
use statik_rs.Proto.V1_20_1.C2s.Codec.{c2s_packet_round_trip_20}
use statik_rs.Proto.V1_21_1.C2s as C2s21
use statik_rs.Proto.V1_21_1.C2s.Codec.{c2s_packet_round_trip_21}
use statik_rs.Server.Connection.{Connection, Zlib, IsZlib}
use statik_rs.Server.Connection.Frame.{
  max_packet_size, framed_body, frame, received, try_parse_packet,
}
use statik_rs.Server.Connection.Frame.Opening.{Opens, unpack-Opens}
use statik_rs.Server.Connection.Frame.RoundTrip.{try_parse_packet-frame, try_parse-with_length}
use statik_rs.Server.Protocol.{ProtocolKind, DecodedC2s, decode_c2s}

received_unknown :
    (s : State) (e : Error)
    → (s ≡ State.play) ⊎ (s ≡ State.configuration)
    → received s (err e) ≡ ok none
received_unknown s e (inl play) = rw play refl
received_unknown s e (inr configuration) = rw configuration refl

module _ ⦃c : Crates⦄ where
  -- Both versions agree on a packet's bytes once its encoding is known.
  same_bytes :
      {V : Type 0} (packet : V → Packet) (variants : List V) (v : V) (body : Body (packet v))
      → (staging : Bytes) → encode_packet (packet v) body ≡ ok staging
      → ((bytes : Bytes) × (encode_packet (packet v) body ≡ ok bytes)
          × (decode_in_state packet variants (packet v).state bytes ≡ ok (v, body)))
      → decode_in_state packet variants (packet v).state staging ≡ ok (v, body)
  same_bytes packet variants v body staging e (bytes, encoded, decoded) =
      ap (decode_in_state packet variants (packet v).state) (ok_inj (sym e ∙ encoded)) ∙ decoded

  module _ ⦃z : Zlib⦄ where
    -- In the states Play and Configuration: a complete frame with a well-formed body of at most
    -- 2097152 bytes, whose payload does not decode, is taken off the buffer, no more and no less, and
    -- nothing is returned.
    pub try_parse_packet_skips :
        (conn : Connection) (body payload rest : Bytes) (e : Error)
        → length body ≤ max_packet_size
        → Opens conn.compression_threshold body payload
        → (conn.state ≡ State.play) ⊎ (conn.state ≡ State.configuration)
        → decode_c2s conn.protocol conn.state payload ≡ err e
        → try_parse_packet
            (record conn { buffer = (encode_varint (from_usize (length body)) ++ body) ++ rest })
          ≡ (ok none, record conn { buffer = rest })
    try_parse_packet_skips conn body payload rest e fits opens lenient unknown =
        let bytes = encode_varint (from_usize (length body)) ++ body in
        try_parse-with_length (record conn { buffer = bytes ++ rest }) body rest fits refl
        ∙ rw
            (
              unpack-Opens conn.compression_threshold body payload opens,
              drop-append body rest,
              unknown,
              received_unknown conn.state e lenient,
            )
            refl

    -- Every packet of a 1.20.1 client, with a valid body: framed under the compression of a
    -- 1.20.1 connection in the state of the packet, its encoding and the framed body at most
    -- 2097152 bytes long, it is returned unchanged by `try_parse_packet`, and what follows the
    -- frame stays in the buffer.
    pub try_parse_packet-frame_20 :
        IsByteOrder c
        → IsZlib z
        → (v : C2s20.C2sPacket) (body : Body (C2s20.packet v))
        → IsValid (C2s20.packet v).fields body
        → (conn : Connection) (staging framed rest : Bytes) → conn.protocol ≡ ProtocolKind.v1_20_1
        → conn.state ≡ (C2s20.packet v).state
        → encode_packet (C2s20.packet v) body ≡ ok staging
        → length staging ≤ max_packet_size
        → framed_body conn.compression_threshold staging ≡ ok framed
        → length framed ≤ max_packet_size
        → (bytes : Bytes) × (frame conn.compression_threshold (C2s20.packet v) body ≡ ok bytes)
          × (try_parse_packet (record conn { buffer = bytes ++ rest })
              ≡ (ok (some (DecodedC2s.v1_20_1 (v, body))), record conn { buffer = rest }))
    unfolding decode_c2s
    try_parse_packet-frame_20 order zlib v body valid conn staging framed rest kind at encoded small
          wrapped fits =
        let (bytes, framing, parsed) =
          try_parse_packet-frame zlib (C2s20.packet v) body conn staging framed rest encoded small
            wrapped fits in
        let decoded =
          same_bytes C2s20.packet C2s20.variants v body staging encoded
            (c2s_packet_round_trip_20 order v body valid) in
        (bytes, framing, parsed ∙ rw (kind, at, decoded) refl)

    -- Every packet of a 1.21.1 client, with a valid body: framed under the compression of a
    -- 1.21.1 connection in the state of the packet, its encoding and the framed body at most
    -- 2097152 bytes long, it is returned unchanged by `try_parse_packet`, and what follows the
    -- frame stays in the buffer.
    pub try_parse_packet-frame_21 :
        IsByteOrder c
        → IsZlib z
        → (v : C2s21.C2sPacket) (body : Body (C2s21.packet v))
        → IsValid (C2s21.packet v).fields body
        → (conn : Connection) (staging framed rest : Bytes) → conn.protocol ≡ ProtocolKind.v1_21_1
        → conn.state ≡ (C2s21.packet v).state
        → encode_packet (C2s21.packet v) body ≡ ok staging
        → length staging ≤ max_packet_size
        → framed_body conn.compression_threshold staging ≡ ok framed
        → length framed ≤ max_packet_size
        → (bytes : Bytes) × (frame conn.compression_threshold (C2s21.packet v) body ≡ ok bytes)
          × (try_parse_packet (record conn { buffer = bytes ++ rest })
              ≡ (ok (some (DecodedC2s.v1_21_1 (v, body))), record conn { buffer = rest }))
    unfolding decode_c2s
    try_parse_packet-frame_21 order zlib v body valid conn staging framed rest kind at encoded small
          wrapped fits =
        let (bytes, framing, parsed) =
          try_parse_packet-frame zlib (C2s21.packet v) body conn staging framed rest encoded small
            wrapped fits in
        let decoded =
          same_bytes C2s21.packet C2s21.variants v body staging encoded
            (c2s_packet_round_trip_21 order v body valid) in
        (bytes, framing, parsed ∙ rw (kind, at, decoded) refl)
