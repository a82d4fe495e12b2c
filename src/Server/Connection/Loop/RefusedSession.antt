-- ===== src/Server/Connection/Loop/RefusedSession.antt =====
-- A whole session with `handle_connection` that ends at its handshake, and what `Handler::run` makes
-- of it.
use mathlib.Core.List.{map, flatten}
use mathlib.Core.Path.{subst}
use statik_rs.Prelude.{ℕ, ◌≡◌, refl, sym, All, List, [], ◌∷◌, ◌++◌, some}
use statik_rs.Prelude.Int.{ℤ}
use statik_rs.Core.Crates.{Crates, IsByteOrder}
use statik_rs.Core.Result.{Error, ok, err, connection_ended, Bytes}
use statik_rs.Core.State.{ClientIntent}
use statik_rs.Server.Config.{ServerConfig}
use statik_rs.Server.Connection.{Connection, Zlib, IsZlib, Assets, new_connection}
use statik_rs.Server.Connection.Handlers.Exchange.{handshake_of, IsRefused, refuses}
use statik_rs.Server.Connection.Loop.{Event, Outcome, handle_connection}
use statik_rs.Server.Connection.Loop.Chunks.{IsSome}
use statik_rs.Server.Connection.Loop.Conversation.{IsExpected, frame_of}
use statik_rs.Server.Connection.Loop.Refusal.{Refusal, handle_connection-Refusal}
use statik_rs.Server.Handler.{Turn, run}
use statik_rs.Server.Handler.Turns.{run_lem}
use statik_rs.Server.Protocol.{ProtocolKind}
use statik_rs.Server.Shutdown.{new_shutdown}

reported :
    (kind : ProtocolKind) (version : ℤ) (intent : ClientIntent) (e : Error)
    → IsRefused kind version intent e
    → run (Turn.returned (err e) ∷ []) new_shutdown ≡ some (err connection_ended)
reported kind version intent e (IsRefused.other_version other) = run_lem [] [] _ _ tt refl
reported kind version intent e (IsRefused.transfer agreed asked_for) = run_lem [] [] _ _ tt refl

module _ ⦃c : Crates⦄ ⦃z : Zlib⦄ ⦃a : Assets⦄ where
  module _ (order : IsByteOrder c) (zlib : IsZlib z) where
    -- A client is turned away, from bytes to bytes: a new connection of either version reads, in any
    -- chunks, none of them empty, the frame of a handshake that is short enough and has a body in
    -- range, but names another protocol number than the server's or asks for a transfer, and
    -- behind it any bytes. Then the loop returns the error of that refusal with the connection as
    -- it was: still in Handshake, nothing written, nothing behind the handshake handled, only bytes
    -- left in its read buffer. `Handler::run` reports it as an error, not as a clean close.
    pub refused_session :
        (kind : ProtocolKind) (config : ServerConfig) (version : ℤ) (host : Bytes) (port : ℕ)
        → (intent : ClientIntent) (e : Error) (id : ℤ) (asked rest : Bytes) (chunks : List Bytes)
        → All IsSome chunks
        → flatten chunks ≡ asked ++ rest
        → IsExpected (new_connection config kind) (handshake_of kind version host port intent)
        → frame_of
            (new_connection config kind).compression_threshold
            (handshake_of kind version host port intent)
          ≡ ok asked
        → IsRefused kind version intent e
        → (left : Bytes) × (handle_connection
              (map Event.read chunks)
              id
              (new_connection config kind)
            ≡ Outcome.ended e (record (new_connection config kind) { buffer = left }))
          × (run (Turn.returned (err e) ∷ []) new_shutdown ≡ some (err connection_ended))
    refused_session kind config version host port intent e id asked rest chunks full cut expected
          sent no_good =
        let start : Connection = new_connection config kind in
        let refusal : Refusal e start start (asked ++ rest) =
          Refusal.refused start (handshake_of kind version host port intent) asked rest expected
            sent (λ behind. refuses kind config behind version host port intent e no_good) in
        let (left, ended) =
          handle_connection-Refusal order zlib chunks start start e id full
            (subst (λ (l : Bytes). Refusal e start start l) (sym cut) refusal) in
        (left, ended, reported kind version intent e no_good)
