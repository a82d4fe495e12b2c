-- ===== src/Server/Connection/Loop/Conversation.antt =====
-- From the bytes that a client sends to the bytes that it is answered: framing, decoding, the
-- handlers and the loop together.
use statik_rs.Prelude.{ℕ, zero, suc, ◌<◌, ◌≤◌, ◌≡◌, ◌≢◌, refl, sym, ap, ◌∙◌, arith, length}
use statik_rs.Prelude.{Option, none, some, List, [], ◌∷◌, ◌++◌, length-append}
use statik_rs.Prelude.Int.{ℤ}
use statik_rs.Core.Crates.{Crates, IsByteOrder}
use statik_rs.Core.Result.{Result, ok, ok_inj, Bytes}
use statik_rs.Core.VarInt.{decode_varint, decode_loop}
use statik_rs.Derive.{encode_packet}
use statik_rs.Proto.V1_20_1.C2s as C2s20
use statik_rs.Proto.V1_21_1.C2s as C2s21
use statik_rs.Server.Connection.{Connection, Zlib, IsZlib, Assets}
use statik_rs.Server.Connection.Burst.{Outgoing}
use statik_rs.Server.Connection.Frame.{max_packet_size, framed_body, frame, try_parse_packet}
use statik_rs.Server.Connection.Frame.Delivery.{
  try_parse_packet-frame_20, try_parse_packet-frame_21,
}
use statik_rs.Server.Connection.Frame.Received.{IsInDomain}
use statik_rs.Server.Connection.Handlers.{dispatch_packet}
use statik_rs.Server.Connection.Loop.{
  Outcome, dispatched, parsed, drain, after_drain, handle_connection,
}
use statik_rs.Server.Protocol.{DecodedC2s, packet_kind}

pub no_fuel : (n : ℕ) → ¬ (n < 0)
no_fuel n h = omega arith

none-ne-some : {p : DecodedC2s} → ◌≢◌ {A = Result (Option DecodedC2s)} (ok none) (ok (some p))
none-ne-some h = cc

-- The packet that a client writes.
abbrev pub client_packet : DecodedC2s → Outgoing
client_packet (DecodedC2s.v1_20_1 (v, body)) = (C2s20.packet v, body)
client_packet (DecodedC2s.v1_21_1 (v, body)) = (C2s21.packet v, body)

-- The connection with something else in its read buffer.
abbrev pub holding : Connection → Bytes → Connection
holding conn buffer = record conn { buffer = buffer }

module _ ⦃c : Crates⦄ ⦃z : Zlib⦄ where
  -- The encoding of a packet, and its framed body, are not too long for a frame.
  pub record IsSendable (threshold : Option ℤ) (p : Outgoing) : Type 0 where
    pub staging : Bytes
    pub framed : Bytes
    pub encoded : encode_packet p.0 p.1 ≡ ok staging
    pub small : length staging ≤ max_packet_size
    pub wrapped : framed_body threshold staging ≡ ok framed
    pub fits : length framed ≤ max_packet_size

  -- A packet that a connection understands: its version's, in its state, with a valid body.
  pub record IsExpected (conn : Connection) (p : DecodedC2s) : Type 0 where
    pub in_domain : IsInDomain p
    pub same_kind : conn.protocol ≡ packet_kind p
    pub same_state : conn.state ≡ (client_packet p).0.state
    pub sendable : IsSendable conn.compression_threshold (client_packet p)

  abbrev pub frame_of : Option ℤ → DecodedC2s → Result Bytes
  frame_of threshold p = frame threshold (client_packet p).0 (client_packet p).1

  module _ (order : IsByteOrder c) (zlib : IsZlib z) where
    delivered :
        (conn : Connection) (p : DecodedC2s) (rest : Bytes)
        → IsExpected conn p
        → (bytes : Bytes) × (frame_of conn.compression_threshold p ≡ ok bytes)
          × (try_parse_packet (holding conn (bytes ++ rest)) ≡ (ok (some p), holding conn rest))
    delivered conn (DecodedC2s.v1_20_1 (v, body)) rest h =
        let s = h.sendable in
        try_parse_packet-frame_20 order zlib v body h.in_domain conn s.staging s.framed rest
          h.same_kind h.same_state s.encoded s.small s.wrapped s.fits
    delivered conn (DecodedC2s.v1_21_1 (v, body)) rest h =
        let s = h.sendable in
        try_parse_packet-frame_21 order zlib v body h.in_domain conn s.staging s.framed rest
          h.same_kind h.same_state s.encoded s.small s.wrapped s.fits

    pub delivered_as :
        (conn : Connection) (p : DecodedC2s) (bytes rest : Bytes)
        → IsExpected conn p
        → frame_of conn.compression_threshold p ≡ ok bytes
        → try_parse_packet (holding conn (bytes ++ rest)) ≡ (ok (some p), holding conn rest)
    delivered_as conn p bytes rest h e =
        let (bytes', e', parse) = delivered conn p rest h in
        let same : bytes' ≡ bytes = ok_inj (sym e' ∙ e) in
        ap (λ (l : Bytes). try_parse_packet (holding conn (l ++ rest))) (sym same) ∙ parse

  nothing_parsed :
      (conn : Connection) → try_parse_packet (holding conn []) ≡ (ok none, holding conn [])
  unfolding try_parse_packet decode_varint decode_loop
  nothing_parsed conn = refl

  module _ ⦃a : Assets⦄ where
    -- Whatever stands in the read buffer, a packet takes one connection to another.
    abbrev pub Answers : Connection → DecodedC2s → Connection → Type 0
    Answers s p t = (rest : Bytes) → dispatch_packet p (holding s rest) ≡ (ok tt, holding t rest)

    -- Packets that a client sends one after the other, each expected where it comes and framed under
    -- the compression of that time, with all their bytes, and the connections before and after.
    pub data Conversation : Connection → List DecodedC2s → Bytes → Connection → Type 0 where
      over : (s : Connection) → Conversation s [] [] s
      turn :
          (s t u : Connection) (p : DecodedC2s) (ps : List DecodedC2s) (bytes others : Bytes)
          → IsExpected s p
          → frame_of s.compression_threshold p ≡ ok bytes
          → Answers s p t
          → Conversation t ps others u
          → Conversation s (p ∷ ps) (bytes ++ others) u

    pub drain_done :
        (fuel : ℕ) (s : Connection) → drain (suc fuel) (holding s []) ≡ some (ok tt, holding s [])
    unfolding drain
    drain_done fuel s = ap (parsed (drain fuel)) (nothing_parsed s)

    pub drain_turn :
        (fuel : ℕ) (s t u : Connection) (p : DecodedC2s)
        → try_parse_packet s ≡ (ok (some p), t)
        → dispatch_packet p t ≡ (ok tt, u)
        → drain (suc fuel) s ≡ drain fuel u
    unfolding drain
    drain_turn fuel s t u p parse answer =
        ap (parsed (drain fuel)) parse ∙ ap (dispatched (drain fuel)) answer

    module _ (order : IsByteOrder c) (zlib : IsZlib z) where
      drain-Conversation :
          (s u : Connection) (ps : List DecodedC2s) (bytes : Bytes) (fuel : ℕ)
          → length ps < fuel
          → Conversation s ps bytes u
          → drain fuel (holding s bytes) ≡ some (ok tt, holding u [])
      drain-Conversation s u ps bytes zero below talk = absurd (no_fuel (length ps) below)
      drain-Conversation s u ps bytes (suc fuel) below (Conversation.over _) = drain_done fuel s
      drain-Conversation s u ps bytes (suc fuel) below
            (Conversation.turn _ t _ p qs first others expected framed answers more) =
          drain_turn fuel _ _ _ p (delivered_as order zlib s p first others expected framed)
            (answers others)
          ∙ drain-Conversation t u qs others fuel (omega arith) more

      pub frame_some :
          (s : Connection) (p : DecodedC2s) (bytes : Bytes)
          → IsExpected s p
          → frame_of s.compression_threshold p ≡ ok bytes
          → 1 ≤ length bytes
      frame_some s p [] expected framed = absurd (
          none-ne-some (
            ap (λ (r : Result (Option DecodedC2s) × Connection). r.0)
              (sym (nothing_parsed s) ∙ delivered_as order zlib s p [] [] expected framed)))
      frame_some s p (b ∷ bytes) expected framed = omega arith

      length-Conversation :
          (s u : Connection) (ps : List DecodedC2s) (bytes : Bytes)
          → Conversation s ps bytes u
          → length ps ≤ length bytes
      length-Conversation s u ps bytes (Conversation.over _) = omega arith
      length-Conversation s u ps bytes
            (Conversation.turn _ t _ p qs first others expected framed answers more) =
          omega (
            arith,
            length-append first others,
            frame_some s p first expected framed,
            length-Conversation t u qs others more,
          )

      -- All the frames of a conversation stand in the read buffer, and the loop goes round: it takes
      -- every packet and answers it as the handlers do, and then waits with an empty buffer.
      pub handle_connection-Conversation :
          (s u : Connection) (ps : List DecodedC2s) (bytes : Bytes) (id : ℤ)
          → Conversation s ps bytes u
          → handle_connection [] id (holding s bytes) ≡ Outcome.waiting id (holding u [])
      unfolding handle_connection
      handle_connection-Conversation s u ps bytes id talk =
          ap (λ r. after_drain Outcome.waiting r id)
            (drain-Conversation s u ps bytes (suc (length bytes))
              (omega (arith, length-Conversation s u ps bytes talk)) talk)
