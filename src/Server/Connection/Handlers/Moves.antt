-- ===== src/Server/Connection/Handlers/Moves.antt =====
-- The protocol's states: which ones a handler can lead to, and when compression starts.
use statik_rs.Prelude.{◌≡◌, refl, ap, ◌⊎◌, inl, inr, true, false, some, ◌==◌}
use statik_rs.Prelude.{Bool-cases}
use statik_rs.Prelude.Int.{ℤ}
use statik_rs.Core.Crates.{Crates}
use statik_rs.Core.State.{State, ClientIntent}
use statik_rs.Core.VarInt.{to_usize}
use statik_rs.Proto.V1_20_1.C2s as C2s20
use statik_rs.Proto.V1_21_1.C2s as C2s21
use statik_rs.Server.Connection.{Connection, Zlib, Assets}
use statik_rs.Server.Connection.Burst.{configuration_burst, play_burst_v1_21_1}
use statik_rs.Server.Connection.Handlers.{
  handle_handshake, handle_status, handle_login, handle_configuration, handle_play, handler_of,
  dispatch_packet, shake_hands, set_state,
}
use statik_rs.Server.Connection.Handlers.Evolves.{
  Writes, Writes-none, Evolves, write_packet-Writes, burst-Evolves, accept_20-Evolves,
  accept_21-Evolves,
}
use statik_rs.Server.Exec.{continue}
use statik_rs.Server.Connection.Username.{is_valid_username}
use statik_rs.Server.Protocol.{
  ProtocolKind, DecodedC2s, packet_kind, protocol_version, intent_to_state,
}

-- The state machine of the protocol, for each version.
pub data Move : ProtocolKind → State → State → Type 0 where
  stay : (k : ProtocolKind) (s : State) → Move k s s
  ask_status : (k : ProtocolKind) → Move k State.handshake State.status
  ask_login : (k : ProtocolKind) → Move k State.handshake State.login
  enter_play : Move ProtocolKind.v1_20_1 State.login State.play
  acknowledge : Move ProtocolKind.v1_21_1 State.login State.configuration
  finish : Move ProtocolKind.v1_21_1 State.configuration State.play

-- A connection before and after a handler.
pub record Handled (s t : Connection) : Type 0 where
  pub same_config : t.config ≡ s.config
  pub same_protocol : t.protocol ≡ s.protocol
  pub same_buffer : t.buffer ≡ s.buffer
  pub move : Move s.protocol s.state t.state
  pub compression :
      (t.compression_threshold ≡ s.compression_threshold)
      ⊎ ((s.state ≡ State.login)
          × (s.config.compression.enabled ≡ true)
          × (t.compression_threshold ≡ some s.config.compression.threshold))

written : (s t : Connection) → Writes s t → Handled s t
written s t (bytes, e) = record {
  same_config = ap (λ (k : Connection). k.config) e;
  same_protocol = ap (λ (k : Connection). k.protocol) e;
  same_buffer = ap (λ (k : Connection). k.buffer) e;
  move = rw (ap (λ (k : Connection). k.state) e) (Move.stay s.protocol s.state);
  compression = inl (ap (λ (k : Connection). k.compression_threshold) e);
}

-- A login that is under way.
logged_in :
    (target : State) (s t : Connection)
    → Evolves target s.config.compression.enabled s.config.compression.threshold s t
    → s.state ≡ State.login
    → Move s.protocol State.login target
    → Handled s t
logged_in target s t e at move = record {
  same_config = e.same_config;
  same_protocol = e.same_protocol;
  same_buffer = e.same_buffer;
  move = elim e.state_change [
    | inl same ↦ rw same (Move.stay s.protocol s.state)
    | inr there ↦ rw (there, at) move
  ];
  compression = elim e.threshold_change [
    | inl same ↦ inl same
    | inr started ↦ inr (at, started.0, started.1)
  ];
}

-- The same where nothing is said about compression.
moved :
    (target : State) (threshold : ℤ) (s t : Connection)
    → Evolves target false threshold s t
    → Move s.protocol s.state target
    → Handled s t
moved target threshold s t e move = record {
  same_config = e.same_config;
  same_protocol = e.same_protocol;
  same_buffer = e.same_buffer;
  move = elim e.state_change [
    | inl same ↦ rw same (Move.stay s.protocol s.state)
    | inr there ↦ rw there move
  ];
  compression = elim e.threshold_change [
    | inl same ↦ inl same
    | inr started ↦ absurd (not_enabled started.0)
  ];
}
  where
    not_enabled : ¬ (false ≡ true)
    not_enabled h = cc

chosen_state :
    (next : ClientIntent) (s : Connection)
    → s.state ≡ State.handshake
    → Handled s (continue (intent_to_state next) set_state s).1
unfolding intent_to_state
chosen_state ClientIntent.status s at = record {
  same_config = refl;
  same_protocol = refl;
  same_buffer = refl;
  move = rw at (Move.ask_status s.protocol);
  compression = inl refl;
}
chosen_state ClientIntent.login s at = record {
  same_config = refl;
  same_protocol = refl;
  same_buffer = refl;
  move = rw at (Move.ask_login s.protocol);
  compression = inl refl;
}
chosen_state ClientIntent.transfer s at = written s s (Writes-none s)

shake_hands-Handled :
    (version : ℤ) (next : ClientIntent) (s : Connection)
    → s.state ≡ State.handshake
    → Handled s (shake_hands version next s).1
unfolding shake_hands
shake_hands-Handled version next s at =
    elim (Bool-cases (to_usize version == protocol_version s.protocol)) [
      | inl same ↦ rw same (chosen_state next s at)
      | inr other ↦ rw other (written s s (Writes-none s))
    ]

handle_handshake-Handled :
    (packet : DecodedC2s) (s : Connection)
    → s.state ≡ State.handshake
    → Handled s (handle_handshake packet s).1
unfolding handle_handshake
handle_handshake-Handled
      (DecodedC2s.v1_20_1 (C2s20.C2sPacket.handshake, (version, (a, (p, (next, e)))))) s at =
    shake_hands-Handled version next s at
handle_handshake-Handled
      (DecodedC2s.v1_21_1 (C2s21.C2sPacket.handshake, (version, (a, (p, (next, e)))))) s at =
    shake_hands-Handled version next s at
handle_handshake-Handled _ s at = written s s (Writes-none s)

handle_play-Handled : (packet : DecodedC2s) (s : Connection) → Handled s (handle_play packet s).1
unfolding handle_play
handle_play-Handled packet s = written s s (Writes-none s)

module _ ⦃c : Crates⦄ ⦃z : Zlib⦄ where
  handle_status-Handled :
      (packet : DecodedC2s) (s : Connection) → Handled s (handle_status packet s).1
  unfolding handle_status
  handle_status-Handled (DecodedC2s.v1_20_1 (C2s20.C2sPacket.status_request, body)) s =
      written s _ (write_packet-Writes _ _ s)
  handle_status-Handled (DecodedC2s.v1_20_1 (C2s20.C2sPacket.ping, (payload, e))) s =
      written s _ (write_packet-Writes _ _ s)
  handle_status-Handled (DecodedC2s.v1_21_1 (C2s21.C2sPacket.status_request, body)) s =
      written s _ (write_packet-Writes _ _ s)
  handle_status-Handled (DecodedC2s.v1_21_1 (C2s21.C2sPacket.ping, (payload, e))) s =
      written s _ (write_packet-Writes _ _ s)
  handle_status-Handled _ s = written s s (Writes-none s)

  module _ ⦃a : Assets⦄ where
    handle_login-Handled :
        (packet : DecodedC2s) (s : Connection)
        → packet_kind packet ≡ s.protocol
        → s.state ≡ State.login
        → Handled s (handle_login packet s).1
    unfolding handle_login
    handle_login-Handled (DecodedC2s.v1_20_1 (C2s20.C2sPacket.login_start, (username, b))) s kind
          at =
        elim (Bool-cases (is_valid_username username)) [
          | inl valid ↦ rw valid (
              logged_in State.play s _ (accept_20-Evolves username s) at
                (rw (← kind) Move.enter_play))
          | inr invalid ↦ rw invalid (written s _ (write_packet-Writes _ _ s))
        ]
    handle_login-Handled (DecodedC2s.v1_21_1 (C2s21.C2sPacket.hello, (name, b))) s kind at =
        elim (Bool-cases (is_valid_username name)) [
          | inl valid ↦ rw valid (
              logged_in State.login s _ (accept_21-Evolves name s) at
                (Move.stay s.protocol State.login))
          | inr invalid ↦ rw invalid (written s _ (write_packet-Writes _ _ s))
        ]
    handle_login-Handled (DecodedC2s.v1_21_1 (C2s21.C2sPacket.login_acknowledged, b)) s kind at =
        moved State.configuration s.config.compression.threshold s _
          (burst-Evolves State.configuration s.config.compression.threshold false
            configuration_burst s)
          (rw (← kind, at) Move.acknowledge)
    handle_login-Handled _ s kind at = written s s (Writes-none s)

    handle_configuration-Handled :
        (packet : DecodedC2s) (s : Connection)
        → packet_kind packet ≡ s.protocol
        → s.state ≡ State.configuration
        → Handled s (handle_configuration packet s).1
    unfolding handle_configuration
    handle_configuration-Handled (DecodedC2s.v1_21_1 (C2s21.C2sPacket.finish_configuration_ack, b))
          s kind at =
        moved State.play s.config.compression.threshold s _
          (burst-Evolves State.play s.config.compression.threshold false
            (play_burst_v1_21_1 s.config) s)
          (rw (← kind, at) Move.finish)
    handle_configuration-Handled _ s kind at = written s s (Writes-none s)

    handler_of-Handled :
        (packet : DecodedC2s) (s : Connection) (state : State)
        → packet_kind packet ≡ s.protocol
        → s.state ≡ state
        → Handled s (handler_of state packet s).1
    handler_of-Handled packet s State.handshake kind at = handle_handshake-Handled packet s at
    handler_of-Handled packet s State.status kind at = handle_status-Handled packet s
    handler_of-Handled packet s State.login kind at = handle_login-Handled packet s kind at
    handler_of-Handled packet s State.configuration kind at =
        handle_configuration-Handled packet s kind at
    handler_of-Handled packet s State.play kind at = handle_play-Handled packet s

    -- For every packet of the connection's version, whether the handler succeeds or fails half-way:
    -- the state makes a move of the protocol's state machine or stays, compression starts only in
    -- Login and only as configured, and configuration, version and read buffer stay.
    pub dispatch_packet-Handled :
        (packet : DecodedC2s) (s : Connection)
        → packet_kind packet ≡ s.protocol
        → Handled s (dispatch_packet packet s).1
    unfolding dispatch_packet
    dispatch_packet-Handled packet s kind = handler_of-Handled packet s s.state kind refl
