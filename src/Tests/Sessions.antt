-- ===== src/Tests/Sessions.antt =====
-- Whole sessions with the loop, on examples.
use mathlib.Core.List.{map, flatten}
use mathlib.Core.Path.{subst}
use statik_rs.Prelude.{
  List, ◌∙◌, ap, sym, append-nil, take, drop, take-append-drop, length-take, length-drop, All,
}
use statik_rs.Prelude.{◌≤◌, ◌≡◌, refl, true, none, [], ◌∷◌, ◌++◌, arith, length, lt_wf}
use statik_rs.Prelude.Int.{pos}
use statik_rs.Core.Result.{ok, Bytes}
use statik_rs.Core.State.{State, ClientIntent, intent_discriminant}
use statik_rs.Core.Utf8.{is_utf8}
use statik_rs.Core.VarInt.{encode_varint, encode_loop}
use statik_rs.Core.Wire.{encode, encode_string}
use statik_rs.Derive.{encode_packet}
use statik_rs.Server.Config.{default_config}
use statik_rs.Server.Connection.{Connection, new_connection}
use statik_rs.Server.Connection.Burst.{Outgoing}
use statik_rs.Server.Connection.Frame.{max_packet_size, framed_body, frame}
use statik_rs.Server.Connection.Handlers.Exchange.{handshake_of}
use statik_rs.Server.Connection.Handlers.Join.{
  hello_of, login_acknowledged, finish_configuration_ack,
}
use statik_rs.Server.Connection.Handlers.Ping.{
  status_request_of, ping_of, pong_of, in_status, answers_ping,
}
use statik_rs.Server.Connection.Handlers.Sent.{frames}
use statik_rs.Server.Connection.Loop.{Event, Outcome, handle_connection}
use statik_rs.Server.Connection.Loop.Chunks.{IsSome, handle_connection-chunks}
use statik_rs.Server.Connection.Loop.Conversation.{
  client_packet, frame_of, IsSendable, IsExpected, Conversation,
}
use statik_rs.Server.Connection.Loop.JoinSession.{
  logging_in, greeted, configuring, in_world, join_session,
}
use statik_rs.Server.Connection.Loop.StatusSession.{status_session}
use statik_rs.Server.Protocol.{ProtocolKind, DecodedC2s}
use statik_rs.Tests.Exchanges.{home, answers_sent, all_joined}
use statik_rs.Tests.Instances.{crates, crates-IsByteOrder, zlib, zlib-IsZlib, assets}
use statik_rs.Tests.Runs.{frame_some, frames_some, Encodable, steve, steve_valid}

abbrev pub IsShort : (p : Outgoing) → Encodable p → Type 0
IsShort p (staging, e) = length staging ≤ max_packet_size

-- A short packet, without compression.
pub sends :
    (p : Outgoing) (h : Encodable p) → IsShort p h → IsSendable ⦃c = crates⦄ ⦃z = zlib⦄ none p
unfolding framed_body
sends p (staging, e) short = record {
  staging = staging;
  framed = staging;
  encoded = e;
  small = short;
  wrapped = refl;
  fits = short;
}

-- The server list ping.
abbrev start : Connection
start = new_connection default_config ProtocolKind.v1_21_1

abbrev knock : ClientIntent → DecodedC2s
knock intent = handshake_of ProtocolKind.v1_21_1 (pos 767) home 25565 intent

abbrev request : DecodedC2s
request = status_request_of ProtocolKind.v1_21_1

abbrev ping : DecodedC2s
ping = ping_of ProtocolKind.v1_21_1 (pos 7)

status_knock : Encodable (client_packet (knock ClientIntent.status))
unfolding encode_packet encode encode_string encode_varint encode_loop lt_wf
status_knock = (_, refl)

login_knock : Encodable (client_packet (knock ClientIntent.login))
unfolding encode_packet encode encode_string encode_varint encode_loop lt_wf
login_knock = (_, refl)

request_encoded : Encodable (client_packet request)
unfolding encode_packet encode encode_varint encode_loop lt_wf
request_encoded = (_, refl)

ping_encoded : Encodable (client_packet ping)
unfolding encode_packet encode encode_varint encode_loop lt_wf
ping_encoded = (_, refl)

hello_encoded : Encodable (client_packet (hello_of steve 0))
unfolding encode_packet encode encode_string encode_varint encode_loop lt_wf
hello_encoded = (_, refl)

login_ack_encoded : Encodable (client_packet login_acknowledged)
unfolding encode_packet encode encode_varint encode_loop lt_wf
login_ack_encoded = (_, refl)

finish_encoded : Encodable (client_packet finish_configuration_ack)
unfolding encode_packet encode encode_varint encode_loop lt_wf
finish_encoded = (_, refl)

pub home_text : is_utf8 home ≡ true
unfolding is_utf8
home_text = refl

pub steve_text : is_utf8 steve ≡ true
unfolding is_utf8
steve_text = refl

expects_status : IsExpected ⦃c = crates⦄ ⦃z = zlib⦄ start (knock ClientIntent.status)
unfolding status_knock intent_discriminant
expects_status = record {
  in_domain = (omega arith, ((home_text, omega arith), (omega arith, (tt, tt))));
  same_kind = refl;
  same_state = refl;
  sendable = sends _ status_knock (omega arith);
}

expects_login : IsExpected ⦃c = crates⦄ ⦃z = zlib⦄ start (knock ClientIntent.login)
unfolding login_knock intent_discriminant
expects_login = record {
  in_domain = (omega arith, ((home_text, omega arith), (omega arith, (tt, tt))));
  same_kind = refl;
  same_state = refl;
  sendable = sends _ login_knock (omega arith);
}

abbrev looking : Connection
looking = in_status ProtocolKind.v1_21_1 default_config [] []

expects_request : IsExpected ⦃c = crates⦄ ⦃z = zlib⦄ looking request
unfolding request_encoded
expects_request = record {
  in_domain = tt;
  same_kind = refl;
  same_state = refl;
  sendable = sends _ request_encoded (omega arith);
}

expects_ping : IsExpected ⦃c = crates⦄ ⦃z = zlib⦄ looking ping
unfolding ping_encoded
expects_ping = record {
  in_domain = (omega arith, tt);
  same_kind = refl;
  same_state = refl;
  sendable = sends _ ping_encoded (omega arith);
}

expects_hello : IsExpected ⦃c = crates⦄ ⦃z = zlib⦄ (logging_in default_config) (hello_of steve 0)
unfolding hello_encoded
expects_hello = record {
  in_domain = ((steve_text, omega arith), (omega arith, tt));
  same_kind = refl;
  same_state = refl;
  sendable = sends _ hello_encoded (omega arith);
}

expects_login_ack :
    IsExpected ⦃c = crates⦄ ⦃z = zlib⦄ (greeted default_config []) login_acknowledged
unfolding login_ack_encoded
expects_login_ack = record {
  in_domain = tt;
  same_kind = refl;
  same_state = refl;
  sendable = sends _ login_ack_encoded (omega arith);
}

expects_finish :
    IsExpected ⦃c = crates⦄ ⦃z = zlib⦄ (configuring default_config []) finish_configuration_ack
unfolding finish_encoded
expects_finish = record {
  in_domain = tt;
  same_kind = refl;
  same_state = refl;
  sendable = sends _ finish_encoded (omega arith);
}

status_asked :
    (bytes : Bytes) × (frames ⦃c = crates⦄ ⦃z = zlib⦄ none (
        client_packet (knock ClientIntent.status) ∷ client_packet request ∷ client_packet ping ∷ [])
      ≡ ok bytes)
status_asked = frames_some _ (status_knock, (request_encoded, (ping_encoded, tt)))

-- The first byte alone, then the others.
abbrev pub in_two : Bytes → List Bytes
in_two bytes = take 1 bytes ∷ drop 1 bytes ∷ []

pub flatten-in_two : (bytes : Bytes) → flatten (in_two bytes) ≡ bytes
unfolding flatten
flatten-in_two bytes =
    ap (λ (l : Bytes). take 1 bytes ++ l) (append-nil (drop 1 bytes)) ∙ take-append-drop 1 bytes

pub in_two-IsSome : (bytes : Bytes) → 2 ≤ length bytes → All IsSome (in_two bytes)
in_two-IsSome bytes h =
    (omega (arith, length-take 1 bytes), (omega (arith, length-drop 1 bytes), tt))

status_length : 2 ≤ length status_asked.0
unfolding status_asked frames_some frame_some status_knock intent_discriminant
status_length = omega arith

status_session_example :
    handle_connection ⦃c = crates⦄ ⦃z = zlib⦄ ⦃a = assets⦄
      (map Event.read (in_two status_asked.0))
      (pos 0)
      start
    ≡ Outcome.waiting (pos 0) (record start { state = State.status; stream = answers_sent.0 })
status_session_example =
    status_session ⦃c = crates⦄ ⦃z = zlib⦄ ⦃a = assets⦄ crates-IsByteOrder zlib-IsZlib
      ProtocolKind.v1_21_1 default_config (pos 767) home 25565 (pos 7) (pos 0)
      (in_two status_asked.0) answers_sent.0 (in_two-IsSome status_asked.0 status_length) refl
      expects_status expects_request expects_ping
      (status_asked.1 ∙ ap ok (sym (flatten-in_two status_asked.0))) answers_sent.1

-- A 1.21.1 client joins.
hello_asked :
    (bytes : Bytes) × (frames ⦃c = crates⦄ ⦃z = zlib⦄ none
        (client_packet (knock ClientIntent.login) ∷ client_packet (hello_of steve 0) ∷ [])
      ≡ ok bytes)
hello_asked = frames_some _ (login_knock, (hello_encoded, tt))

acks_asked :
    (bytes : Bytes) × (frames ⦃c = crates⦄ ⦃z = zlib⦄ none
        (client_packet login_acknowledged ∷ client_packet finish_configuration_ack ∷ [])
      ≡ ok bytes)
acks_asked = frames_some _ (login_ack_encoded, (finish_encoded, tt))

asked_length : 2 ≤ length (hello_asked.0 ++ acks_asked.0)
unfolding hello_asked frames_some frame_some login_knock intent_discriminant
asked_length = omega arith

join_session_example :
    handle_connection ⦃c = crates⦄ ⦃z = zlib⦄ ⦃a = assets⦄
      (map Event.read (in_two (hello_asked.0 ++ acks_asked.0)))
      (pos 0)
      start
    ≡ Outcome.waiting (pos 0) (in_world default_config all_joined.0)
join_session_example =
    join_session ⦃c = crates⦄ ⦃z = zlib⦄ ⦃a = assets⦄ crates-IsByteOrder zlib-IsZlib default_config
      (pos 767) home 25565 steve 0 (pos 0) hello_asked.0 acks_asked.0 all_joined.0
      (in_two (hello_asked.0 ++ acks_asked.0))
      (in_two-IsSome (hello_asked.0 ++ acks_asked.0) asked_length)
      (flatten-in_two (hello_asked.0 ++ acks_asked.0)) refl steve_valid expects_login expects_hello
      expects_login_ack expects_finish hello_asked.1 acks_asked.1 all_joined.1

-- A conversation of one ping.
pong_encoded : Encodable (pong_of ProtocolKind.v1_21_1 (pos 7))
unfolding encode_packet encode encode_varint encode_loop lt_wf
pong_encoded = (_, refl)

ping_sent : (bytes : Bytes) × (frame_of ⦃c = crates⦄ ⦃z = zlib⦄ none ping ≡ ok bytes)
ping_sent = frame_some (client_packet ping) ping_encoded

pong_sent :
    (bytes : Bytes) × (frame ⦃z = zlib⦄ ⦃c = crates⦄ none
        (pong_of ProtocolKind.v1_21_1 (pos 7)).0
        (pong_of ProtocolKind.v1_21_1 (pos 7)).1
      ≡ ok bytes)
pong_sent = frame_some (pong_of ProtocolKind.v1_21_1 (pos 7)) pong_encoded

abbrev ponged : Connection
ponged = in_status ProtocolKind.v1_21_1 default_config pong_sent.0 []

one_ping :
    Conversation ⦃c = crates⦄ ⦃z = zlib⦄ ⦃a = assets⦄ looking (ping ∷ []) (ping_sent.0 ++ []) ponged
one_ping =
    Conversation.turn looking ponged ponged ping [] ping_sent.0 [] expects_ping ping_sent.1
      (λ rest.
        answers_ping ⦃c = crates⦄ ⦃z = zlib⦄ ⦃a = assets⦄ ProtocolKind.v1_21_1 default_config
          (pos 7) [] rest pong_sent.0 pong_sent.1)
      (Conversation.over ponged)

ping_length : 2 ≤ length (ping_sent.0 ++ [])
unfolding ping_sent frame_some ping_encoded
ping_length = omega arith

handle_connection-chunks_example :
    handle_connection ⦃c = crates⦄ ⦃z = zlib⦄ ⦃a = assets⦄
      (map Event.read (in_two (ping_sent.0 ++ [])))
      (pos 0)
      looking
    ≡ Outcome.waiting (pos 0) ponged
handle_connection-chunks_example =
    handle_connection-chunks ⦃c = crates⦄ ⦃z = zlib⦄ ⦃a = assets⦄ crates-IsByteOrder zlib-IsZlib
      (in_two (ping_sent.0 ++ [])) looking ponged (ping ∷ []) (pos 0)
      (in_two-IsSome (ping_sent.0 ++ []) ping_length)
      (subst
        (λ (l : Bytes).
          Conversation ⦃c = crates⦄ ⦃z = zlib⦄ ⦃a = assets⦄ looking (ping ∷ []) l ponged)
        (sym (flatten-in_two (ping_sent.0 ++ []))) one_ping)
