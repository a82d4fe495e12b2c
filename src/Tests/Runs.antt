-- ===== src/Tests/Runs.antt =====
-- Handlers and whole runs of a connection on examples.
use statik_rs.Prelude.{◌≤◌, ◌≡◌, ◌≢◌, refl, ap, true, none, [], ◌∷◌, ◌++◌, length}
use statik_rs.Prelude.{List, All}
use statik_rs.Prelude.Int.{pos}
use statik_rs.Core.Result.{Result, ok, Bytes}
use statik_rs.Core.State.{State}
use statik_rs.Core.VarInt.{encode_varint, from_usize}
use statik_rs.Core.Wire.{encode, encode_string, encode_elements}
use statik_rs.Derive.{encode_packet, ◌&◌}
use statik_rs.Proto.V1_20_1.C2s as C2s20
use statik_rs.Proto.V1_20_1.S2c as S2c20
use statik_rs.Proto.V1_21_1.C2s as C2s21
use statik_rs.Server.Config.{default_config}
use statik_rs.Server.Connection.{Connection, new_connection}
use statik_rs.Server.Connection.Burst.{Outgoing, play_burst_v1_20_1}
use statik_rs.Server.Connection.Frame.{framed_body, frame}
use statik_rs.Server.Connection.Frame.Prefix.{with_length_lem}
use statik_rs.Server.Connection.Handlers.{dispatch_packet, handle_login}
use statik_rs.Server.Connection.Handlers.Login.{
  login_bytes, handle_login_lem, handle_login-IsAccepted, IsAccepted,
}
use statik_rs.Server.Connection.Handlers.Sent.{frames, extend}
use statik_rs.Server.Connection.Handlers.Moves.{Handled, dispatch_packet-Handled}
use statik_rs.Server.Connection.Loop.{Event, Outcome, handle_connection}
use statik_rs.Server.Connection.Loop.Fuel.{handle_connection_lem}
use statik_rs.Server.Connection.Loop.Reach.{Step, Steps, IsSound, Steps-IsSound}
use statik_rs.Server.Connection.Loop.Trace.{stage, Leaves, Steps-stage, handle_connection-Steps}
use statik_rs.Server.Connection.Username.{is_valid_username}
use statik_rs.Server.Protocol.{ProtocolKind, DecodedC2s}
use statik_rs.Server.Text.{text}
use statik_rs.Tests.Instances.{crates, zlib, assets}

abbrev fresh : Connection
fresh = new_connection default_config ProtocolKind.v1_21_1

abbrev status_21 : Connection
status_21 = record fresh { state = State.status }

abbrev ping : DecodedC2s
ping = DecodedC2s.v1_21_1 (C2s21.C2sPacket.ping, (pos 5, tt))

dispatch_packet-Handled_example :
    Handled status_21 (dispatch_packet ⦃c = crates⦄ ⦃z = zlib⦄ ⦃a = assets⦄ ping status_21).1
dispatch_packet-Handled_example =
    dispatch_packet-Handled ⦃c = crates⦄ ⦃z = zlib⦄ ⦃a = assets⦄ ping status_21 refl

abbrev arrived : Connection
arrived = record fresh { buffer = [] ++ 1 ∷ 0 ∷ [] }

arrived-Steps : Steps ⦃c = crates⦄ ⦃z = zlib⦄ ⦃a = assets⦄ fresh arrived
arrived-Steps = Steps.next fresh fresh arrived (Steps.stop fresh) (Step.receive fresh (1 ∷ 0 ∷ []))

Steps-IsSound_example : IsSound default_config ProtocolKind.v1_21_1 arrived
Steps-IsSound_example =
    Steps-IsSound ⦃c = crates⦄ ⦃z = zlib⦄ ⦃a = assets⦄ default_config ProtocolKind.v1_21_1 arrived
      arrived-Steps

Steps-stage_example : stage fresh.state ≤ stage arrived.state
Steps-stage_example = Steps-stage ⦃c = crates⦄ ⦃z = zlib⦄ ⦃a = assets⦄ fresh arrived arrived-Steps

abbrev events : List Event
events = Event.read (1 ∷ []) ∷ Event.tick ∷ Event.read (0 ∷ []) ∷ Event.read [] ∷ []

handle_connection-Steps_example :
    Leaves ⦃c = crates⦄ ⦃z = zlib⦄ ⦃a = assets⦄ status_21
      (handle_connection ⦃c = crates⦄ ⦃z = zlib⦄ ⦃a = assets⦄ events (pos 0) status_21)
handle_connection-Steps_example =
    handle_connection-Steps ⦃c = crates⦄ ⦃z = zlib⦄ ⦃a = assets⦄ events (pos 0) status_21

handle_connection_lem_example :
    handle_connection ⦃c = crates⦄ ⦃z = zlib⦄ ⦃a = assets⦄ events (pos 0) status_21
    ≢ Outcome.out_of_fuel
handle_connection_lem_example =
    handle_connection_lem ⦃c = crates⦄ ⦃z = zlib⦄ ⦃a = assets⦄ events (pos 0) status_21

-- A client of 1.20.1 that logs in.
abbrev logging_in : Connection
logging_in = record (new_connection default_config ProtocolKind.v1_20_1) { state = State.login }

abbrev pub steve : Bytes
steve = text "Steve"

pub steve_valid : is_valid_username steve ≡ true
unfolding is_valid_username
steve_valid = refl

-- Packets that can be encoded can be framed.
abbrev pub Encodable : Outgoing → Type 0
Encodable packet = (staging : Bytes) × (encode_packet ⦃c = crates⦄ packet.0 packet.1 ≡ ok staging)

unfoldable pub frame_some :
    (packet : Outgoing)
    → Encodable packet
    → (bytes : Bytes) × (frame ⦃z = zlib⦄ ⦃c = crates⦄ none packet.0 packet.1 ≡ ok bytes)
unfolding frame framed_body
frame_some packet (staging, e) = (
  encode_varint (from_usize (length staging)) ++ staging,
  rw e (with_length_lem ⦃z = zlib⦄ staging),
)

unfoldable pub frames_some :
    (packets : List Outgoing)
    → All Encodable packets
    → (bytes : Bytes) × (frames ⦃c = crates⦄ ⦃z = zlib⦄ none packets ≡ ok bytes)
unfolding frames
frames_some [] h = ([], refl)
frames_some (packet ∷ packets) h =
    let (first, e) = frame_some packet h.0 in
    let (others, f) = frames_some packets h.1 in (first ++ others, rw (e, f) refl)

burst-Encodable : All Encodable (play_burst_v1_20_1 ⦃a = assets⦄ default_config)
unfolding play_burst_v1_20_1 encode_packet encode encode_string encode_elements
burst-Encodable = (
  (_, refl),
  ((_, refl), ((_, refl), ((_, refl), ((_, refl), ((_, refl), ((_, refl), ((_, refl), tt))))))),
)

success-Encodable : Encodable (S2c20.Login.s2c_login_success, 0 & steve & [] & tt)
unfolding encode_packet encode encode_string encode_elements
success-Encodable = (_, refl)

pub all_sent :
    (bytes : Bytes) × (login_bytes ⦃c = crates⦄ ⦃z = zlib⦄ ⦃a = assets⦄ default_config steve none
      ≡ ok bytes)
unfolding login_bytes
all_sent =
    let (success, e) =
      frame_some (S2c20.Login.s2c_login_success, 0 & steve & [] & tt) success-Encodable in
    let (burst, f) = frames_some (play_burst_v1_20_1 ⦃a = assets⦄ default_config) burst-Encodable in
    (success ++ burst, rw (e, f) refl)

abbrev login_start : DecodedC2s
login_start = DecodedC2s.v1_20_1 (C2s20.C2sPacket.login_start, (steve, (none, tt)))

handle_login_lem_example :
    handle_login ⦃c = crates⦄ ⦃z = zlib⦄ ⦃a = assets⦄ login_start logging_in
    ≡ (ok tt, record (extend ⦃c = crates⦄ ⦃z = zlib⦄ logging_in all_sent.0) { state = State.play })
handle_login_lem_example =
    handle_login_lem ⦃c = crates⦄ ⦃z = zlib⦄ ⦃a = assets⦄ logging_in steve all_sent.0 (none, tt)
      steve_valid all_sent.1

in_play :
    (handle_login ⦃c = crates⦄ ⦃z = zlib⦄ ⦃a = assets⦄ login_start logging_in).1.state ≡ State.play
in_play =
    ap (λ (r : Result (Unit {0}) × Connection). r.1.state)
      (handle_login_lem ⦃c = crates⦄ ⦃z = zlib⦄ ⦃a = assets⦄ logging_in steve all_sent.0 (none, tt)
        steve_valid all_sent.1)

handle_login-IsAccepted_example : IsAccepted ⦃c = crates⦄ ⦃z = zlib⦄ ⦃a = assets⦄ login_start
handle_login-IsAccepted_example =
    handle_login-IsAccepted ⦃c = crates⦄ ⦃z = zlib⦄ ⦃a = assets⦄ login_start logging_in refl in_play
