-- ===== src/Server/Connection/Loop/StatusSession.antt =====
-- A whole session with `handle_connection`, from the chunks that a client sends to the bytes that it
-- is answered: the server list ping.
use mathlib.Core.List.{map, flatten}
use statik_rs.Prelude.{ℕ, ◌≡◌, refl, ap, ◌∙◌, ◌++◌, true, [], ◌∷◌}
use statik_rs.Prelude.{◌==◌, All, none, List}
use statik_rs.Prelude.Int.{ℤ}
use statik_rs.Core.Crates.{Crates, IsByteOrder}
use statik_rs.Core.Result.{ok, Bytes}
use statik_rs.Core.State.{State, ClientIntent}
use statik_rs.Core.VarInt.{to_usize}
use statik_rs.Server.Config.{ServerConfig}
use statik_rs.Server.Connection.{Connection, Zlib, IsZlib, Assets, new_connection}
use statik_rs.Server.Connection.Burst.{Outgoing}
use statik_rs.Server.Connection.Handlers.Exchange.{handshake_of, shaken}
use statik_rs.Server.Connection.Handlers.Ping.{
  status_request_of, ping_of, status_answer, pong_of, in_status, answers_status, answers_ping,
}
use statik_rs.Server.Connection.Handlers.Sent.{frames, frames-cons, frames_last}
use statik_rs.Server.Connection.Loop.{Event, Outcome, handle_connection}
use statik_rs.Server.Connection.Loop.Chunks.{IsSome, handle_connection-chunks}
use statik_rs.Server.Connection.Loop.Conversation.{client_packet, IsExpected, Conversation}
use statik_rs.Server.Connection.Loop.Turns.{IsExpected-alike, turn_frames, nothing_more}
use statik_rs.Server.Protocol.{ProtocolKind, protocol_version, intent_to_state}

module _ ⦃c : Crates⦄ ⦃z : Zlib⦄ ⦃a : Assets⦄ where
  module _ (order : IsByteOrder c) (zlib : IsZlib z) where
    -- The server list ping, in either version, from bytes to bytes: a new connection reads the frames of
    -- a handshake for the status with the server's protocol number, of a status request and of a
    -- ping, each of them short enough and with a body in range, in any chunks, none of them empty.
    -- Then the loop waits for more with an empty buffer, in Status, and what it has written are the
    -- frames of the status response made from the configuration and of the pong with the ping's
    -- payload, if these can be encoded.
    pub status_session :
        (kind : ProtocolKind) (config : ServerConfig) (version : ℤ) (host : Bytes) (port : ℕ)
        → (payload id : ℤ) (chunks : List Bytes) (answered : Bytes) → All IsSome chunks
        → (to_usize version == protocol_version kind) ≡ true
        → IsExpected
            (new_connection config kind)
            (handshake_of kind version host port ClientIntent.status)
        → IsExpected (in_status kind config [] []) (status_request_of kind)
        → IsExpected (in_status kind config [] []) (ping_of kind payload)
        → frames none (
            client_packet (handshake_of kind version host port ClientIntent.status)
            ∷ client_packet (status_request_of kind)
            ∷ client_packet (ping_of kind payload)
            ∷ [])
          ≡ ok (flatten chunks)
        → frames none (status_answer kind config ∷ pong_of kind payload ∷ []) ≡ ok answered
        → handle_connection (map Event.read chunks) id (new_connection config kind)
          ≡ Outcome.waiting id
              (record (new_connection config kind) { state = State.status; stream = answered })
    unfolding intent_to_state
    status_session kind config version host port payload id chunks answered full agreed x1 x2 x3
          sent e =
        let pong : Outgoing = pong_of kind payload in
        let (first, written, others, more, joined) =
          frames-cons none _ (status_answer kind config).1 (pong ∷ []) answered e in
        let ponged = frames_last none pong.0 pong.1 others more in
        let start : Connection = new_connection config kind in
        let s1 : Connection = in_status kind config [] [] in
        let s2 : Connection = in_status kind config first [] in
        let s3 : Connection = in_status kind config (first ++ others) [] in
        let talk : Conversation start _ (flatten chunks) s3 =
          turn_frames start s1 s3 _ _ _ _ x1
            (λ rest. shaken kind config rest version host port ClientIntent.status _ agreed refl)
            sent
            (λ l f.
              turn_frames s1 s2 s3 _ _ _ l x2
                (λ rest. answers_status kind config [] rest first written) f
                (λ l f.
                  turn_frames s2 s3 s3 _ _ [] l (IsExpected-alike _ s2 _ x3 refl refl refl)
                    (λ rest. answers_ping kind config payload first rest others ponged) f
                    (nothing_more none s3))) in
        handle_connection-chunks order zlib chunks start s3 _ id full talk
        ∙ ap (λ (l : Bytes). Outcome.waiting id (in_status kind config l [])) joined
