-- ===== src/Server/Connection/Loop/Turns.antt =====
-- `handle_connection`: how conversations are put together from the frames of single packets.
use mathlib.Core.Path.{subst}
use statik_rs.Prelude.{◌≡◌, sym, ◌∙◌, ◌++◌, [], ◌∷◌}
use statik_rs.Prelude.{append_assoc, Option, List}
use statik_rs.Prelude.Int.{ℤ}
use statik_rs.Core.Crates.{Crates}
use statik_rs.Core.Result.{ok, ok_inj, Bytes}
use statik_rs.Server.Connection.{Connection, Zlib, Assets}
use statik_rs.Server.Connection.Burst.{Outgoing}
use statik_rs.Server.Connection.Handlers.Sent.{frames, frames-cons}
use statik_rs.Server.Connection.Loop.Conversation.{
  client_packet, IsSendable, IsExpected, Answers, Conversation,
}
use statik_rs.Server.Protocol.{DecodedC2s}

module _ ⦃c : Crates⦄ ⦃z : Zlib⦄ ⦃a : Assets⦄ where
  -- What is expected depends on the version, the state and the compression only.
  pub IsExpected-alike :
      (s t : Connection) (p : DecodedC2s)
      → IsExpected s p
      → t.protocol ≡ s.protocol
      → t.state ≡ s.state
      → t.compression_threshold ≡ s.compression_threshold
      → IsExpected t p
  IsExpected-alike s t p h kind state threshold = record {
    in_domain = h.in_domain;
    same_kind = kind ∙ h.same_kind;
    same_state = state ∙ h.same_state;
    sendable = subst (λ l. IsSendable l (client_packet p)) (sym threshold) h.sendable;
  }

  -- The next packet of a conversation, when all the packets that follow are framed alike.
  pub turn_frames :
      (s t u : Connection) (p : DecodedC2s) (ps : List DecodedC2s) (more : List Outgoing)
      → (bytes : Bytes) → IsExpected s p
      → Answers s p t
      → frames s.compression_threshold (client_packet p ∷ more) ≡ ok bytes
      → ((others : Bytes)
          → frames s.compression_threshold more ≡ ok others
          → Conversation t ps others u)
      → Conversation s (p ∷ ps) bytes u
  turn_frames s t u p ps more bytes expected answers sent next =
      let (first, framed, others, rest, joined) =
        frames-cons s.compression_threshold (client_packet p).0 (client_packet p).1 more bytes
          sent in
      subst (λ (l : Bytes). Conversation s (p ∷ ps) l u) joined
        (Conversation.turn s t u p ps first others expected framed answers (next others rest))

  pub nothing_more :
      (threshold : Option ℤ) (s : Connection) (bytes : Bytes)
      → frames threshold [] ≡ ok bytes
      → Conversation s [] bytes s
  unfolding frames
  nothing_more threshold s bytes e =
      subst (λ (l : Bytes). Conversation s [] l s) (ok_inj e) (Conversation.over s)

  -- A conversation and one that goes on from it.
  pub Conversation-append :
      (s t u : Connection) (ps qs : List DecodedC2s) (front back : Bytes)
      → Conversation s ps front t
      → Conversation t qs back u
      → Conversation s (ps ++ qs) (front ++ back) u
  Conversation-append s t u ps qs front back (Conversation.over _) later = later
  Conversation-append s t u ps qs front back
        (Conversation.turn _ v _ p rest first others expected framed answers more) later =
      subst (λ (l : Bytes). Conversation s (p ∷ (rest ++ qs)) l u)
        (sym (append_assoc first others back))
        (Conversation.turn s v u p (rest ++ qs) first (others ++ back) expected framed answers
          (Conversation-append v t u rest qs others back more later))
