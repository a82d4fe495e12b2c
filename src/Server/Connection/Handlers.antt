-- ===== src/Server/Connection/Handlers.antt =====
-- crates/statik_server/src/connection.rs: `dispatch_packet` and the handler of each state.
-- `info!`, `warn!` and the other log macros have no effect on the state.
pub mod Evolves
pub mod Moves
pub mod Sent
pub mod Login
pub mod Exchange
pub mod Ping
pub mod Join
use statik_rs.Prelude.{ℕ, Bool, true, false, Option, none, some, List, [], ◌∷◌, ◌==◌, if◌then◌else◌}
use statik_rs.Prelude.Int.{ℤ, pos}
use statik_rs.Core.Crates.{Crates}
use statik_rs.Core.Result.{Result, Bytes, wrong_packet, unsupported, version_mismatch}
use statik_rs.Core.State.{State, ClientIntent}
use statik_rs.Core.VarInt.{to_usize}
use statik_rs.Derive.{◌&◌}
use statik_rs.Proto.V1_20_1.C2s as C2s20
use statik_rs.Proto.V1_21_1.C2s as C2s21
use statik_rs.Proto.V1_20_1.S2c as S2c20
use statik_rs.Proto.V1_21_1.S2c as S2c21
use statik_rs.Server.Config.{ServerConfig}
use statik_rs.Server.Connection.{Connection, Zlib, Assets}
use statik_rs.Server.Connection.Burst.{
  Outgoing, status_response, invalid_username, play_burst_v1_20_1, configuration_burst,
  play_burst_v1_21_1,
}
use statik_rs.Server.Connection.Frame.{write_packet}
use statik_rs.Server.Connection.Username.{is_valid_username}
use statik_rs.Server.Exec.{Exec, pure, fail, gets, modify, lift, ◌>>=◌, ◌>>◌}
use statik_rs.Server.Protocol.{ProtocolKind, DecodedC2s, protocol_version, intent_to_state}

abbrev pub Handler : Type 0
Handler = Exec Connection (Unit {0})

abbrev pub set_state : State → Handler
set_state s = modify (λ conn. record conn { state = s })

abbrev pub set_threshold : ℤ → Handler
set_threshold t = modify (λ conn. record conn { compression_threshold = some t })

-- The version check of the handshake and the change of state.
unfoldable pub shake_hands : ℤ → ClientIntent → Handler
shake_hands version next_state conn =
    if to_usize version == protocol_version conn.protocol
    then (do s ← lift (intent_to_state next_state); set_state s) conn
    else fail version_mismatch conn

unfoldable pub handle_handshake : DecodedC2s → Handler
unfolding shake_hands
handle_handshake
      (DecodedC2s.v1_20_1 (C2s20.C2sPacket.handshake, (version, (_, (_, (next_state, _)))))) =
    shake_hands version next_state
handle_handshake
      (DecodedC2s.v1_21_1 (C2s21.C2sPacket.handshake, (version, (_, (_, (next_state, _)))))) =
    shake_hands version next_state
handle_handshake _ = fail wrong_packet

-- Every packet is only logged.
unfoldable pub handle_play : DecodedC2s → Handler
handle_play packet = pure tt

module _ ⦃c : Crates⦄ ⦃z : Zlib⦄ where
  -- The packets of a burst, one `write_packet(…).await?` after the other.
  unfoldable pub write_each : List Outgoing → Handler
  write_each [] = pure tt
  write_each ((p, body) ∷ packets) = do write_packet p body; write_each packets

  unfoldable pub handle_status : DecodedC2s → Handler
  handle_status (DecodedC2s.v1_20_1 (C2s20.C2sPacket.status_request, _)) = do
    config ← gets (λ conn. conn.config)
    protocol ← gets (λ conn. conn.protocol)
    write_packet S2c20.Status.s2c_status_response (status_response config protocol, tt)
  handle_status (DecodedC2s.v1_20_1 (C2s20.C2sPacket.ping, (payload, _))) =
      write_packet S2c20.Status.s2c_pong (payload, tt)
  handle_status (DecodedC2s.v1_21_1 (C2s21.C2sPacket.status_request, _)) = do
    config ← gets (λ conn. conn.config)
    protocol ← gets (λ conn. conn.protocol)
    write_packet S2c21.Status.s2c_status_response (status_response config protocol, tt)
  handle_status (DecodedC2s.v1_21_1 (C2s21.C2sPacket.ping, (payload, _))) =
      write_packet S2c21.Status.s2c_pong (payload, tt)
  handle_status _ = fail wrong_packet

  -- `if compression_enabled { … }`.
  abbrev pub compress_20 : Bool → ℤ → Handler
  compress_20 false threshold = pure tt
  compress_20 true threshold = do
    write_packet S2c20.Login.s2c_set_compression (threshold, tt)
    set_threshold threshold

  abbrev pub compress_21 : Bool → ℤ → Handler
  compress_21 false threshold = pure tt
  compress_21 true threshold = do
    write_packet S2c21.Login.s2c_set_compression (threshold, tt)
    set_threshold threshold

  module _ ⦃a : Assets⦄ where
    -- `LoginStart` of 1.20.1 with a name that is accepted.
    unfoldable pub accept_20 : Bytes → Handler
    accept_20 username = do
      config ← gets (λ conn. conn.config)
      compress_20 config.compression.enabled config.compression.threshold
      write_packet S2c20.Login.s2c_login_success (0 & username & [] & tt)
      set_state State.play
      write_each (play_burst_v1_20_1 config)

    unfoldable pub accept_21 : Bytes → Handler
    accept_21 username = do
      config ← gets (λ conn. conn.config)
      compress_21 config.compression.enabled config.compression.threshold
      write_packet S2c21.Login.s2c_login_success (0 & username & [] & false & tt)

    unfoldable pub handle_login : DecodedC2s → Handler
    unfolding accept_20 accept_21
    handle_login (DecodedC2s.v1_20_1 (C2s20.C2sPacket.login_start, (username, _))) =
        if is_valid_username username
        then accept_20 username
        else write_packet S2c20.Login.s2c_disconnect (invalid_username, tt)
    handle_login (DecodedC2s.v1_20_1 (C2s20.C2sPacket.encryption_response, _)) = fail unsupported
    handle_login (DecodedC2s.v1_20_1 (C2s20.C2sPacket.login_plugin_response, _)) = fail unsupported
    handle_login (DecodedC2s.v1_21_1 (C2s21.C2sPacket.hello, (name, _))) =
        if is_valid_username name
        then accept_21 name
        else write_packet S2c21.Login.s2c_disconnect (invalid_username, tt)
    handle_login (DecodedC2s.v1_21_1 (C2s21.C2sPacket.login_acknowledged, _)) = do
      set_state State.configuration
      write_each configuration_burst
    handle_login (DecodedC2s.v1_21_1 (C2s21.C2sPacket.key, _)) = fail unsupported
    handle_login (DecodedC2s.v1_21_1 (C2s21.C2sPacket.custom_query_answer, _)) = fail unsupported
    handle_login (DecodedC2s.v1_21_1 (C2s21.C2sPacket.cookie_response, _)) = fail unsupported
    handle_login _ = fail wrong_packet

    unfoldable pub handle_configuration : DecodedC2s → Handler
    handle_configuration (DecodedC2s.v1_20_1 _) = fail wrong_packet
    handle_configuration (DecodedC2s.v1_21_1 (C2s21.C2sPacket.finish_configuration_ack, _)) = do
      set_state State.play
      config ← gets (λ conn. conn.config)
      write_each (play_burst_v1_21_1 config)
    handle_configuration (DecodedC2s.v1_21_1 _) = pure tt

    abbrev pub handler_of : State → DecodedC2s → Handler
    handler_of State.handshake packet = handle_handshake packet
    handler_of State.status packet = handle_status packet
    handler_of State.login packet = handle_login packet
    handler_of State.configuration packet = handle_configuration packet
    handler_of State.play packet = handle_play packet

    unfoldable pub dispatch_packet : DecodedC2s → Handler
    unfolding handle_handshake handle_status handle_login handle_configuration handle_play
    dispatch_packet packet conn = handler_of conn.state packet conn
