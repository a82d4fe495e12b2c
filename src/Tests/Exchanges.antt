-- ===== src/Tests/Exchanges.antt =====
-- Exchanges with a client, the keep-alive timer and packets read from the wire, on examples.
use statik_rs.Prelude.{◌≡◌, refl, false, none, [], ◌∷◌, ◌++◌, arith, All}
use statik_rs.Prelude.{replicate}
use statik_rs.Prelude.Int.{pos}
use statik_rs.Core.Result.{ok, Bytes}
use statik_rs.Core.State.{State}
use statik_rs.Core.Wire.{encode, encode_string, encode_elements}
use statik_rs.Derive.{encode_packet, ◌&◌}
use statik_rs.Proto.V1_21_1.S2c as S2c21
use statik_rs.Server.Config.{default_config}
use statik_rs.Server.Connection.{Connection, new_connection}
use statik_rs.Server.Connection.Burst.{configuration_burst, play_burst_v1_21_1}
use statik_rs.Server.Connection.Handlers.Join.{join_bytes, hello_bytes}
use statik_rs.Server.Connection.Handlers.Ping.{status_answer, pong_of}
use statik_rs.Server.Connection.Handlers.Sent.{frames, extend}
use statik_rs.Server.Connection.Loop.{Event, Outcome, handle_connection}
use statik_rs.Server.Connection.Loop.KeepAlive.{handle_connection_ticks, keep_alives}
use statik_rs.Server.Protocol.{ProtocolKind}
use statik_rs.Server.Text.{text}
use statik_rs.Tests.Instances.{crates, zlib, assets}
use statik_rs.Tests.Runs.{frame_some, frames_some, Encodable, steve}

abbrev pub home : Bytes
home = text "localhost"

-- The server list ping.
answers-Encodable :
    All Encodable (
      status_answer ProtocolKind.v1_21_1 default_config ∷ pong_of ProtocolKind.v1_21_1 (pos 7) ∷ [])
unfolding encode_packet encode encode_string
answers-Encodable = ((_, refl), ((_, refl), tt))

pub answers_sent :
    (bytes : Bytes) × (frames ⦃c = crates⦄ ⦃z = zlib⦄ none (
        status_answer ProtocolKind.v1_21_1 default_config
        ∷ pong_of ProtocolKind.v1_21_1 (pos 7)
        ∷ [])
      ≡ ok bytes)
answers_sent = frames_some _ answers-Encodable

-- A 1.21.1 client joins.
configuration-Encodable : All Encodable (configuration_burst ⦃a = assets⦄)
unfolding configuration_burst encode_packet encode encode_string encode_elements
configuration-Encodable = (
  (_, refl),
  (
    (_, refl),
    (
      (_, refl),
      (
        (_, refl),
        (
          (_, refl),
          (
            (_, refl),
            (
              (_, refl),
              (
                (_, refl),
                (
                  (_, refl),
                  (
                    (_, refl),
                    (
                      (_, refl),
                      ((_, refl), ((_, refl), ((_, refl), ((_, refl), ((_, refl), tt))))),
                    ),
                  ),
                ),
              ),
            ),
          ),
        ),
      ),
    ),
  ),
)

play-Encodable : All Encodable (play_burst_v1_21_1 ⦃a = assets⦄ default_config)
unfolding play_burst_v1_21_1 encode_packet encode encode_string encode_elements
play-Encodable = (
  (_, refl),
  (
    (_, refl),
    (
      (_, refl),
      ((_, refl), ((_, refl), ((_, refl), ((_, refl), ((_, refl), ((_, refl), ((_, refl), tt))))))),
    ),
  ),
)

success-Encodable : Encodable (S2c21.Login.s2c_login_success, 0 & steve & [] & false & tt)
unfolding encode_packet encode encode_string encode_elements
success-Encodable = (_, refl)

pub all_joined :
    (bytes : Bytes) × (join_bytes ⦃c = crates⦄ ⦃z = zlib⦄ ⦃a = assets⦄ default_config steve none
      ≡ ok bytes)
unfolding join_bytes hello_bytes
all_joined =
    let (success, e) =
      frame_some (S2c21.Login.s2c_login_success, 0 & steve & [] & false & tt) success-Encodable in
    let (second, f) = frames_some (configuration_burst ⦃a = assets⦄) configuration-Encodable in
    let (third, g) = frames_some (play_burst_v1_21_1 ⦃a = assets⦄ default_config) play-Encodable in
    (success ++ (second ++ third), rw (e, f, g) refl)

-- Three ticks in Play.
abbrev playing : Connection
playing = record (new_connection default_config ProtocolKind.v1_21_1) { state = State.play }

ticks-Encodable : All Encodable (keep_alives ProtocolKind.v1_21_1 (pos 0) 3)
unfolding encode_packet encode
ticks-Encodable = ((_, refl), ((_, refl), ((_, refl), tt)))

ticks_sent :
    (bytes : Bytes) × (frames ⦃c = crates⦄ ⦃z = zlib⦄ none
        (keep_alives ProtocolKind.v1_21_1 (pos 0) 3)
      ≡ ok bytes)
ticks_sent = frames_some _ ticks-Encodable

handle_connection_ticks_example :
    handle_connection ⦃c = crates⦄ ⦃z = zlib⦄ ⦃a = assets⦄ (replicate 3 Event.tick) (pos 0) playing
    ≡ Outcome.waiting (pos 3) (extend ⦃c = crates⦄ ⦃z = zlib⦄ playing ticks_sent.0)
handle_connection_ticks_example =
    handle_connection_ticks ⦃c = crates⦄ ⦃z = zlib⦄ ⦃a = assets⦄ 3 (pos 0) playing ticks_sent.0
      (omega arith) refl ticks_sent.1
