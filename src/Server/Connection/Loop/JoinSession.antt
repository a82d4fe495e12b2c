-- ===== src/Server/Connection/Loop/JoinSession.antt =====
-- A whole session with `handle_connection`, from the chunks that a client sends to the bytes that it
-- is answered: the way of a 1.21.1 client into the world.
use mathlib.Core.List.{map, flatten}
use mathlib.Core.Path.{subst}
use statik_rs.Prelude.{ℕ, ◌≡◌, refl, sym, ap, ◌∙◌, ◌++◌, true, [], ◌∷◌}
use statik_rs.Prelude.{◌==◌, append_assoc, All, Option, none, List}
use statik_rs.Prelude.Int.{ℤ}
use statik_rs.Core.Crates.{Crates, IsByteOrder}
use statik_rs.Core.Result.{ok, >>=-eq-ok, ok_inj, Bytes}
use statik_rs.Core.State.{State, ClientIntent}
use statik_rs.Core.VarInt.{to_usize}
use statik_rs.Server.Config.{ServerConfig}
use statik_rs.Server.Connection.{Connection, Zlib, IsZlib, Assets, new_connection}
use statik_rs.Server.Connection.Burst.{configuration_burst, play_burst_v1_21_1}
use statik_rs.Server.Connection.Handlers.Exchange.{handshake_of, shaken}
use statik_rs.Server.Connection.Handlers.Join.{
  hello_of, login_acknowledged, finish_configuration_ack, hello_bytes, join_bytes, says_hello,
  acknowledges, finishes,
}
use statik_rs.Server.Connection.Handlers.Sent.{frames, threshold_after}
use statik_rs.Server.Connection.Loop.{Event, Outcome, handle_connection}
use statik_rs.Server.Connection.Loop.Chunks.{IsSome, handle_connection-chunks}
use statik_rs.Server.Connection.Loop.Conversation.{client_packet, holding, IsExpected, Conversation}
use statik_rs.Server.Connection.Loop.Turns.{
  IsExpected-alike, turn_frames, nothing_more, Conversation-append,
}
use statik_rs.Server.Connection.Username.{is_valid_username}
use statik_rs.Server.Protocol.{ProtocolKind, DecodedC2s, protocol_version, intent_to_state}

-- A 1.21.1 client on its way, with what it has been written so far: waiting for `Hello`, for
-- `LoginAcknowledged`, for `FinishConfigurationAck`, and in the world.
abbrev pub configured_threshold : ServerConfig → Option ℤ
configured_threshold config =
    threshold_after config.compression.enabled config.compression.threshold none

abbrev pub logging_in : ServerConfig → Connection
logging_in config = record (new_connection config ProtocolKind.v1_21_1) { state = State.login }

abbrev pub greeted : ServerConfig → Bytes → Connection
greeted config stream = record (logging_in config) {
  stream = stream;
  compression_threshold = configured_threshold config;
}

abbrev pub configuring : ServerConfig → Bytes → Connection
configuring config stream = record (greeted config stream) { state = State.configuration }

abbrev pub in_world : ServerConfig → Bytes → Connection
in_world config stream = record (greeted config stream) { state = State.play }

module _ ⦃c : Crates⦄ ⦃z : Zlib⦄ ⦃a : Assets⦄ where
  module _ (order : IsByteOrder c) (zlib : IsZlib z) where
    -- The second half: the acknowledgements of what was said and of the configuration.
    acknowledged :
        (config : ServerConfig) (stream second third ack : Bytes)
        → IsExpected (greeted config []) login_acknowledged
        → IsExpected (configuring config []) finish_configuration_ack
        → frames
            (configured_threshold config)
            (client_packet login_acknowledged ∷ client_packet finish_configuration_ack ∷ [])
          ≡ ok ack
        → frames (configured_threshold config) configuration_burst ≡ ok second
        → frames (configured_threshold config) (play_burst_v1_21_1 config) ≡ ok third
        → Conversation
            (greeted config stream)
            (login_acknowledged ∷ finish_configuration_ack ∷ [])
            ack
            (in_world config ((stream ++ second) ++ third))
    acknowledged config stream second third ack x3 x4 sent configured played =
        let s2 : Connection = greeted config stream in
        let s3 : Connection = configuring config (stream ++ second) in
        let s4 : Connection = in_world config ((stream ++ second) ++ third) in
        turn_frames s2 s3 s4 _ _ _ ack (IsExpected-alike _ s2 _ x3 refl refl refl)
          (λ rest. acknowledges (holding s2 rest) second refl configured) sent
          (λ l f.
            turn_frames s3 s4 s4 _ _ [] l (IsExpected-alike _ s3 _ x4 refl refl refl)
              (λ rest. finishes (holding s3 rest) third refl played) f
              (nothing_more (configured_threshold config) s4))

    -- A 1.21.1 client joins, from bytes to bytes: a new connection reads, in any chunks, none of them
    -- empty, the frames of a handshake for the login with the server's protocol number and of a
    -- `Hello` with an acceptable name, and then, framed under the compression that the server has
    -- configured, those of `LoginAcknowledged` and `FinishConfigurationAck`, each short enough and
    -- with a body in range. Then the loop waits for more with an empty buffer, in Play, under that
    -- compression, and what it has written is `S2CSetCompression` (if configured), in the new framing
    -- `S2CLoginSuccess`, the Configuration burst and the Play burst, if these can be encoded.
    pub join_session :
        (config : ServerConfig) (version : ℤ) (host : Bytes) (port : ℕ) (name : Bytes) (uuid : ℕ)
        → (id : ℤ) (hello ack answered : Bytes) (chunks : List Bytes) → All IsSome chunks
        → flatten chunks ≡ hello ++ ack
        → (to_usize version == protocol_version ProtocolKind.v1_21_1) ≡ true
        → is_valid_username name ≡ true
        → IsExpected
            (new_connection config ProtocolKind.v1_21_1)
            (handshake_of ProtocolKind.v1_21_1 version host port ClientIntent.login)
        → IsExpected (logging_in config) (hello_of name uuid)
        → IsExpected (greeted config []) login_acknowledged
        → IsExpected (configuring config []) finish_configuration_ack
        → frames none (
            client_packet (handshake_of ProtocolKind.v1_21_1 version host port ClientIntent.login)
            ∷ client_packet (hello_of name uuid)
            ∷ [])
          ≡ ok hello
        → frames
            (configured_threshold config)
            (client_packet login_acknowledged ∷ client_packet finish_configuration_ack ∷ [])
          ≡ ok ack
        → join_bytes config name none ≡ ok answered
        → handle_connection (map Event.read chunks) id (new_connection config ProtocolKind.v1_21_1)
          ≡ Outcome.waiting id (in_world config answered)
    unfolding join_bytes intent_to_state
    join_session config version host port name uuid id hello ack answered chunks full cut agreed
          valid x1 x2 x3 x4 sent acked e =
        let after = configured_threshold config in
        let (first, spoken, e1) = >>=-eq-ok (hello_bytes config name none) _ answered e in
        let (second, configured, e2) = >>=-eq-ok (frames after configuration_burst) _ answered e1 in
        let (third, played, joined) =
          >>=-eq-ok (frames after (play_burst_v1_21_1 config)) _ answered e2 in
        let start : Connection = new_connection config ProtocolKind.v1_21_1 in
        let s1 : Connection = logging_in config in
        let s2 : Connection = greeted config first in
        let s4 : Connection = in_world config ((first ++ second) ++ third) in
        let packets : List DecodedC2s =
          handshake_of ProtocolKind.v1_21_1 version host port ClientIntent.login
          ∷ hello_of name uuid
          ∷ login_acknowledged
          ∷ finish_configuration_ack
          ∷ [] in
        let opening : Conversation start _ hello s2 =
          turn_frames start s1 s2 _ _ _ hello x1
            (λ rest.
              shaken ProtocolKind.v1_21_1 config rest version host port ClientIntent.login _ agreed
                refl)
            sent
            (λ l f.
              turn_frames s1 s2 s2 _ _ [] l x2
                (λ rest. says_hello (holding s1 rest) name uuid first refl valid spoken) f
                (nothing_more none s2)) in
        let talk =
          Conversation-append start s2 s4 _ _ hello ack opening
            (acknowledged config first second third ack x3 x4 acked configured played) in
        handle_connection-chunks order zlib chunks start s4 packets id full
          (subst (λ (l : Bytes). Conversation start packets l s4) (sym cut) talk)
        ∙ ap (λ (l : Bytes). Outcome.waiting id (in_world config l))
            (append_assoc first second third ∙ ok_inj joined)
