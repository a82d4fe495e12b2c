-- ===== src/Server/Connection/Loop/LoginSession.antt =====
-- A whole session with `handle_connection`, from the chunks that a client sends to the bytes that it
-- is answered: the login of a 1.20.1 client, and whatever it says in the world.
use mathlib.Core.List.{map, flatten}
use mathlib.Core.Path.{subst}
use statik_rs.Prelude.{ℕ, ◌≡◌, refl, sym, ◌∙◌, ◌++◌, true, [], ◌∷◌}
use statik_rs.Prelude.{◌==◌, All, Option, none, List}
use statik_rs.Prelude.Int.{ℤ}
use statik_rs.Core.Crates.{Crates, IsByteOrder}
use statik_rs.Core.Result.{ok, Bytes}
use statik_rs.Core.State.{State, ClientIntent}
use statik_rs.Core.VarInt.{to_usize}
use statik_rs.Proto.V1_20_1.C2s as C2s20
use statik_rs.Server.Config.{ServerConfig}
use statik_rs.Server.Connection.{Connection, Zlib, IsZlib, Assets, new_connection}
use statik_rs.Server.Connection.Handlers.{dispatch_packet}
use statik_rs.Server.Connection.Handlers.Exchange.{handshake_of, shaken, dispatch_packet-eq}
use statik_rs.Server.Connection.Handlers.Login.{login_bytes, handle_login_lem}
use statik_rs.Server.Connection.Handlers.Sent.{frames, threshold_after}
use statik_rs.Server.Connection.Loop.{Event, Outcome, handle_connection}
use statik_rs.Server.Connection.Loop.Chunks.{IsSome, handle_connection-chunks}
use statik_rs.Server.Connection.Loop.Conversation.{client_packet, holding, IsExpected, Conversation}
use statik_rs.Server.Connection.Loop.Turns.{turn_frames, nothing_more, Conversation-append}
use statik_rs.Server.Connection.Username.{is_valid_username}
use statik_rs.Server.Protocol.{ProtocolKind, DecodedC2s, protocol_version, intent_to_state}

abbrev pub login_start_of : Bytes → Option ℕ → DecodedC2s
login_start_of username id = DecodedC2s.v1_20_1 (C2s20.C2sPacket.login_start, (username, (id, tt)))

-- A 1.20.1 client that has sent its handshake, and one in the world with what it has been written.
abbrev pub before_login : ServerConfig → Connection
before_login config = record (new_connection config ProtocolKind.v1_20_1) { state = State.login }

abbrev pub after_login : ServerConfig → Bytes → Connection
after_login config stream = record (new_connection config ProtocolKind.v1_20_1) {
  state = State.play;
  stream = stream;
  compression_threshold =
      threshold_after config.compression.enabled config.compression.threshold none;
}

module _ ⦃c : Crates⦄ ⦃z : Zlib⦄ ⦃a : Assets⦄ where
  logs_in :
      (conn : Connection) (username bytes : Bytes) (id : Option ℕ)
      → conn.state ≡ State.login
      → is_valid_username username ≡ true
      → login_bytes conn.config username conn.compression_threshold ≡ ok bytes
      → dispatch_packet (login_start_of username id) conn ≡ (
        ok tt,
        record conn {
          stream = conn.stream ++ bytes;
          state = State.play;
          compression_threshold =
              threshold_after conn.config.compression.enabled conn.config.compression.threshold
                conn.compression_threshold;
        },
      )
  logs_in conn username bytes id at valid e =
      dispatch_packet-eq (login_start_of username id) conn State.login at
      ∙ handle_login_lem conn username bytes (id, tt) valid e

  module _ (order : IsByteOrder c) (zlib : IsZlib z) where
    -- A 1.20.1 client logs in and goes on, from bytes to bytes: a new connection reads, in any
    -- chunks, none of them empty, the frames of a handshake for the login with the server's protocol
    -- number and of a `LoginStart` with an acceptable name, each short enough and with a body in
    -- range, and then the bytes of any conversation that starts in Play under the compression that is
    -- configured, when `S2CSetCompression` (if configured), `S2CLoginSuccess` and the Play burst
    -- have been written. Then the loop waits for more with an empty buffer where that conversation
    -- ends.
    pub login_session :
        (config : ServerConfig) (version : ℤ) (host : Bytes) (port : ℕ) (name : Bytes)
        → (uuid : Option ℕ) (id : ℤ) (asked later answered : Bytes) (chunks : List Bytes)
        → (more : List DecodedC2s) (u : Connection) → All IsSome chunks
        → flatten chunks ≡ asked ++ later
        → (to_usize version == protocol_version ProtocolKind.v1_20_1) ≡ true
        → is_valid_username name ≡ true
        → IsExpected
            (new_connection config ProtocolKind.v1_20_1)
            (handshake_of ProtocolKind.v1_20_1 version host port ClientIntent.login)
        → IsExpected (before_login config) (login_start_of name uuid)
        → frames none (
            client_packet (handshake_of ProtocolKind.v1_20_1 version host port ClientIntent.login)
            ∷ client_packet (login_start_of name uuid)
            ∷ [])
          ≡ ok asked
        → login_bytes config name none ≡ ok answered
        → Conversation (after_login config answered) more later u
        → handle_connection (map Event.read chunks) id (new_connection config ProtocolKind.v1_20_1)
          ≡ Outcome.waiting id (holding u [])
    unfolding intent_to_state
    login_session config version host port name uuid id asked later answered chunks more u full cut
          agreed valid x1 x2 sent e talk =
        let start : Connection = new_connection config ProtocolKind.v1_20_1 in
        let s1 : Connection = before_login config in
        let s2 : Connection = after_login config answered in
        let packets : List DecodedC2s =
          handshake_of ProtocolKind.v1_20_1 version host port ClientIntent.login
          ∷ login_start_of name uuid
          ∷ more in
        let opening : Conversation start _ asked s2 =
          turn_frames start s1 s2 _ _ _ asked x1
            (λ rest.
              shaken ProtocolKind.v1_20_1 config rest version host port ClientIntent.login _ agreed
                refl)
            sent
            (λ l f.
              turn_frames s1 s2 s2 _ _ [] l x2
                (λ rest. logs_in (holding s1 rest) name answered uuid refl valid e) f
                (nothing_more none s2)) in
        handle_connection-chunks order zlib chunks start u packets id full (
          subst (λ (l : Bytes). Conversation start packets l u) (sym cut)
            (Conversation-append start s2 u _ more asked later opening talk))
