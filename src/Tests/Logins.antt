-- ===== src/Tests/Logins.antt =====
-- The sessions of a 1.20.1 client and of one of another version, on examples.
use mathlib.Core.List.{map}
use statik_rs.Prelude.{◌≤◌, ◌≡◌, refl, none, some, [], ◌∷◌, ◌++◌, arith, length, lt_wf}
use statik_rs.Prelude.Int.{pos}
use statik_rs.Core.Result.{ok, err, version_mismatch, connection_ended, Bytes}
use statik_rs.Core.State.{ClientIntent, intent_discriminant}
use statik_rs.Core.VarInt.{encode_varint, encode_loop}
use statik_rs.Core.Wire.{encode, encode_string}
use statik_rs.Derive.{encode_packet}
use statik_rs.Server.Config.{default_config}
use statik_rs.Server.Connection.{Connection, new_connection}
use statik_rs.Server.Connection.Handlers.Exchange.{handshake_of, IsRefused}
use statik_rs.Server.Connection.Handlers.Sent.{frames}
use statik_rs.Server.Connection.Loop.{Event, Outcome, handle_connection}
use statik_rs.Server.Connection.Loop.Conversation.{
  client_packet, frame_of, IsExpected, Conversation,
}
use statik_rs.Server.Connection.Loop.LoginSession.{
  login_start_of, before_login, after_login, login_session,
}
use statik_rs.Server.Connection.Loop.RefusedSession.{refused_session}
use statik_rs.Server.Handler.{Turn, run}
use statik_rs.Server.Shutdown.{new_shutdown}
use statik_rs.Server.Protocol.{ProtocolKind, DecodedC2s}
use statik_rs.Tests.Exchanges.{home}
use statik_rs.Tests.Instances.{crates, crates-IsByteOrder, zlib, zlib-IsZlib, assets}
use statik_rs.Tests.Runs.{frame_some, frames_some, Encodable, steve, steve_valid, all_sent}
use statik_rs.Tests.Sessions.{sends, home_text, steve_text, in_two, in_two-IsSome, flatten-in_two}

abbrev begin : Connection
begin = new_connection default_config ProtocolKind.v1_20_1

abbrev knock : DecodedC2s
knock = handshake_of ProtocolKind.v1_20_1 (pos 763) home 25565 ClientIntent.login

knock_encoded : Encodable (client_packet knock)
unfolding encode_packet encode encode_string encode_varint encode_loop lt_wf
knock_encoded = (_, refl)

login_encoded : Encodable (client_packet (login_start_of steve none))
unfolding encode_packet encode encode_string encode_varint encode_loop lt_wf
login_encoded = (_, refl)

expects_knock : IsExpected ⦃c = crates⦄ ⦃z = zlib⦄ begin knock
unfolding knock_encoded intent_discriminant
expects_knock = record {
  in_domain = (omega arith, ((home_text, omega arith), (omega arith, (tt, tt))));
  same_kind = refl;
  same_state = refl;
  sendable = sends _ knock_encoded (omega arith);
}

expects_login :
    IsExpected ⦃c = crates⦄ ⦃z = zlib⦄ (before_login default_config) (login_start_of steve none)
unfolding login_encoded
expects_login = record {
  in_domain = ((steve_text, omega arith), (tt, tt));
  same_kind = refl;
  same_state = refl;
  sendable = sends _ login_encoded (omega arith);
}

asked :
    (bytes : Bytes) × (frames ⦃c = crates⦄ ⦃z = zlib⦄ none
        (client_packet knock ∷ client_packet (login_start_of steve none) ∷ [])
      ≡ ok bytes)
asked = frames_some _ (knock_encoded, (login_encoded, tt))

asked_length : 2 ≤ length (asked.0 ++ [])
unfolding asked frames_some frame_some knock_encoded intent_discriminant
asked_length = omega arith

login_session_example :
    handle_connection ⦃c = crates⦄ ⦃z = zlib⦄ ⦃a = assets⦄
      (map Event.read (in_two (asked.0 ++ [])))
      (pos 0)
      begin
    ≡ Outcome.waiting (pos 0) (after_login default_config all_sent.0)
login_session_example =
    login_session ⦃c = crates⦄ ⦃z = zlib⦄ ⦃a = assets⦄ crates-IsByteOrder zlib-IsZlib default_config
      (pos 763) home 25565 steve none (pos 0) asked.0 [] all_sent.0 (in_two (asked.0 ++ [])) []
      (after_login default_config all_sent.0) (in_two-IsSome (asked.0 ++ []) asked_length)
      (flatten-in_two (asked.0 ++ [])) refl steve_valid expects_knock expects_login asked.1
      all_sent.1 (Conversation.over (after_login default_config all_sent.0))

-- A 1.21.1 client knocks at a 1.20.1 server, and has sent one byte more.
abbrev stranger_knock : DecodedC2s
stranger_knock = handshake_of ProtocolKind.v1_20_1 (pos 767) home 25565 ClientIntent.login

stranger_encoded : Encodable (client_packet stranger_knock)
unfolding encode_packet encode encode_string encode_varint encode_loop lt_wf
stranger_encoded = (_, refl)

expects_stranger : IsExpected ⦃c = crates⦄ ⦃z = zlib⦄ begin stranger_knock
unfolding stranger_encoded intent_discriminant
expects_stranger = record {
  in_domain = (omega arith, ((home_text, omega arith), (omega arith, (tt, tt))));
  same_kind = refl;
  same_state = refl;
  sendable = sends _ stranger_encoded (omega arith);
}

stranger_sent : (bytes : Bytes) × (frame_of ⦃c = crates⦄ ⦃z = zlib⦄ none stranger_knock ≡ ok bytes)
stranger_sent = frame_some (client_packet stranger_knock) stranger_encoded

stranger_length : 2 ≤ length (stranger_sent.0 ++ 9 ∷ [])
unfolding stranger_sent frame_some stranger_encoded intent_discriminant
stranger_length = omega arith

refused_session_example :
    (left : Bytes) × (handle_connection ⦃c = crates⦄ ⦃z = zlib⦄ ⦃a = assets⦄
        (map Event.read (in_two (stranger_sent.0 ++ 9 ∷ [])))
        (pos 0)
        begin
      ≡ Outcome.ended version_mismatch (record begin { buffer = left }))
    × (run (Turn.returned (err version_mismatch) ∷ []) new_shutdown ≡ some (err connection_ended))
refused_session_example =
    refused_session ⦃c = crates⦄ ⦃z = zlib⦄ ⦃a = assets⦄ crates-IsByteOrder zlib-IsZlib
      ProtocolKind.v1_20_1 default_config (pos 767) home 25565 ClientIntent.login version_mismatch
      (pos 0) stranger_sent.0 (9 ∷ []) (in_two (stranger_sent.0 ++ 9 ∷ []))
      (in_two-IsSome (stranger_sent.0 ++ 9 ∷ []) stranger_length)
      (flatten-in_two (stranger_sent.0 ++ 9 ∷ [])) expects_stranger stranger_sent.1
      (IsRefused.other_version refl)
