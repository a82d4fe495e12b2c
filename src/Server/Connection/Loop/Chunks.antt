-- ===== src/Server/Connection/Loop/Chunks.antt =====
-- `handle_connection` when a conversation's bytes come in any chunks that the socket gives.
use mathlib.Core.List.{map, flatten}
use mathlib.Core.Path.{subst}
use statik_rs.Prelude.{ℕ, zero, suc, ◌<◌, ◌≤◌, ◌≡◌, refl, sym, ap, ◌∙◌, arith, length, take}
use statik_rs.Prelude.{none, some, List, [], ◌∷◌, ◌++◌, append_assoc, append-nil, length-append}
use statik_rs.Prelude.{All, take-append, append_cut, inl, inr}
use statik_rs.Prelude.Int.{ℤ}
use statik_rs.Core.Crates.{Crates, IsByteOrder}
use statik_rs.Core.Result.{ok, ok_inj, Bytes}
use statik_rs.Core.VarInt.{encode_varint, from_usize}
use statik_rs.Server.Connection.{Connection, Zlib, IsZlib, Assets}
use statik_rs.Server.Connection.Frame.{frame, try_parse_packet}
use statik_rs.Server.Connection.Frame.Prefix.{with_length_lem}
use statik_rs.Server.Connection.Frame.RoundTrip.{try_parse_packet-take}
use statik_rs.Server.Connection.Loop.{Event, Outcome, parsed, drain, handle_connection, select}
use statik_rs.Server.Connection.Loop.Conversation.{
  holding, IsExpected, frame_of, Conversation, handle_connection-Conversation, drain_done,
  drain_turn, delivered_as, frame_some, no_fuel,
}
use statik_rs.Server.Protocol.{DecodedC2s}

-- What the socket gives: some bytes.
abbrev pub IsSome : Bytes → Type 0
IsSome chunk = 1 ≤ length chunk

module _ ⦃c : Crates⦄ ⦃z : Zlib⦄ where
  framed_lem :
      (s : Connection) (p : DecodedC2s) (first : Bytes)
      → (h : IsExpected s p) → frame_of s.compression_threshold p ≡ ok first
      → first ≡ encode_varint (from_usize (length h.sendable.framed)) ++ h.sendable.framed
  unfolding frame
  framed_lem s p first h e =
      let k = h.sendable in ok_inj (sym e ∙ rw (k.encoded, k.wrapped) (with_length_lem k.framed))

  -- A frame of which the last bytes are missing is waited for.
  pub waits :
      (s : Connection) (p : DecodedC2s) (first b r : Bytes)
      → IsExpected s p
      → frame_of s.compression_threshold p ≡ ok first
      → first ≡ b ++ r
      → 1 ≤ length r
      → try_parse_packet (holding s b) ≡ (ok none, holding s b)
  waits s p first b r h e cut missing =
      let framed = h.sendable.framed in
      let whole : b ++ r ≡ encode_varint (from_usize (length framed)) ++ framed =
        sym cut ∙ framed_lem s p first h e in
      try_parse_packet-take (holding s b) framed (length b) h.sendable.fits
        (subst (λ (l : Bytes). length b < length l) whole (omega (arith, length-append b r)))
        (sym (take-append b r) ∙ ap (take (length b)) whole)

  module _ ⦃a : Assets⦄ where
    -- Where the drain leaves a conversation of which the bytes up to some point are there.
    record Progress (fuel : ℕ) (s u : Connection) (b more : Bytes) : Type 0 where
      pub now : Connection
      pub packets : List DecodedC2s
      pub left : Bytes
      pub drained : drain fuel (holding s b) ≡ some (ok tt, holding now left)
      pub goes_on : Conversation now packets (left ++ more) u

    pub drain_waits :
        (fuel : ℕ) (s : Connection) (b : Bytes)
        → try_parse_packet (holding s b) ≡ (ok none, holding s b)
        → drain (suc fuel) (holding s b) ≡ some (ok tt, holding s b)
    unfolding drain
    drain_waits fuel s b e = ap (parsed (drain fuel)) e

    module _ (order : IsByteOrder c) (zlib : IsZlib z) where
      progress :
          (fuel : ℕ) (s u : Connection) (ps : List DecodedC2s) (bytes b more : Bytes)
          → length b < fuel
          → bytes ≡ b ++ more
          → Conversation s ps bytes u
          → Progress fuel s u b more
      progress zero s u ps bytes b more below at talk = absurd (no_fuel (length b) below)
      progress (suc fuel) s u ps bytes [] more below at talk = record {
        now = s;
        packets = ps;
        left = [];
        drained = drain_done fuel s;
        goes_on = subst (λ (l : Bytes). Conversation s ps l u) at talk;
      }
      progress (suc fuel) s u ps bytes (x ∷ b) more below at (Conversation.over _) = absurd cc
      progress (suc fuel) s u ps bytes (x ∷ b) more below at
            (Conversation.turn _ t _ p qs first others expected framed answers talk) =
          elim (append_cut first others (x ∷ b) more at) [
            | inl (b', here, there) ↦
                let k =
                  progress fuel t u qs others b' more
                    (omega (
                      arith,
                      ap length here,
                      length-append first b',
                      frame_some order zlib s p first expected framed,
                    ))
                    there talk in
                record {
                  now = k.now;
                  packets = k.packets;
                  left = k.left;
                  drained =
                      ap (λ (l : Bytes). drain (suc fuel) (holding s l)) here
                      ∙ drain_turn fuel _ _ _ p
                          (delivered_as order zlib s p first b' expected framed) (answers b')
                      ∙ k.drained;
                  goes_on = k.goes_on;
                }
            | inr (r, here, missing) ↦ record {
              now = s;
              packets = p ∷ qs;
              left = x ∷ b;
              drained =
                  drain_waits fuel s (x ∷ b)
                    (waits s p first (x ∷ b) r expected framed here missing);
              goes_on =
                  subst (λ (l : Bytes). Conversation s (p ∷ qs) l u) at
                    (Conversation.turn s t u p qs first others expected framed answers talk);
            }
          ]

      pub reads :
          (s : Connection) (b chunk : Bytes) (id : ℤ)
          → IsSome chunk
          → select (Event.read chunk) id (holding s b) ≡ (ok id, holding s (b ++ chunk))
      unfolding select
      reads s b [] id h = absurd (no_fuel 0 h)
      reads s b (x ∷ chunk) id h = refl

      from_buffer :
          (chunks : List Bytes) (s u : Connection) (ps : List DecodedC2s) (b : Bytes) (id : ℤ)
          → All IsSome chunks
          → Conversation s ps (b ++ flatten chunks) u
          → handle_connection (map Event.read chunks) id (holding s b)
            ≡ Outcome.waiting id (holding u [])
      unfolding handle_connection flatten
      from_buffer [] s u ps b id full talk =
          handle_connection-Conversation order zlib s u ps b id
            (subst (λ (l : Bytes). Conversation s ps l u) (append-nil b) talk)
      from_buffer (chunk ∷ chunks) s u ps b id (here, full) talk =
          let k =
            progress (suc (length b)) s u ps _ b (chunk ++ flatten chunks) (omega arith) refl
              talk in
          rw (k.drained, reads k.now k.left chunk id here)
            (from_buffer chunks k.now u k.packets (k.left ++ chunk) id full (
              subst (λ (l : Bytes). Conversation k.now k.packets l u)
                (sym (append_assoc k.left chunk (flatten chunks))) k.goes_on))

      -- Take a conversation: packets that come one after the other, each with a body in range, of the
      -- connection's version and state at that time, framed under the compression of that time, short
      -- enough, and answered by `dispatch_packet` without an error. However its bytes are cut into
      -- chunks, none of them empty, and read by the loop one after the other, with some of the bytes
      -- in the read buffer already or not: the loop gets through all of its packets, and waits in
      -- the end with an empty buffer, on the connection that the handlers make of it.
      pub handle_connection-chunks :
          (chunks : List Bytes) (s u : Connection) (ps : List DecodedC2s) (id : ℤ)
          → All IsSome chunks
          → Conversation s ps (s.buffer ++ flatten chunks) u
          → handle_connection (map Event.read chunks) id s ≡ Outcome.waiting id (holding u [])
      handle_connection-chunks chunks s u ps id full talk =
          from_buffer chunks s u ps s.buffer id full talk
