-- ===== src/Server/Connection/Handlers/Ping.antt =====
-- `handle_status`: the server list ping, from the handshake to the pong.
use statik_rs.Prelude.{◌≡◌, ◌++◌}
use statik_rs.Prelude.{none}
use statik_rs.Prelude.Int.{ℤ}
use statik_rs.Core.Crates.{Crates}
use statik_rs.Core.Result.{ok, Bytes}
use statik_rs.Core.State.{State}
use statik_rs.Derive.{◌&◌}
use statik_rs.Proto.V1_20_1.C2s as C2s20
use statik_rs.Proto.V1_20_1.S2c as S2c20
use statik_rs.Proto.V1_21_1.C2s as C2s21
use statik_rs.Proto.V1_21_1.S2c as S2c21
use statik_rs.Server.Config.{ServerConfig}
use statik_rs.Server.Connection.{Connection, Zlib, Assets, new_connection}
use statik_rs.Server.Connection.Burst.{Outgoing, status_response}
use statik_rs.Server.Connection.Frame.{frame}
use statik_rs.Server.Connection.Handlers.{dispatch_packet}
use statik_rs.Server.Connection.Handlers.Sent.{write_packet_lem}
use statik_rs.Server.Protocol.{ProtocolKind, DecodedC2s}

abbrev pub status_request_of : ProtocolKind → DecodedC2s
status_request_of ProtocolKind.v1_20_1 = DecodedC2s.v1_20_1 (C2s20.C2sPacket.status_request, tt)
status_request_of ProtocolKind.v1_21_1 = DecodedC2s.v1_21_1 (C2s21.C2sPacket.status_request, tt)

abbrev pub ping_of : ProtocolKind → ℤ → DecodedC2s
ping_of ProtocolKind.v1_20_1 payload = DecodedC2s.v1_20_1 (C2s20.C2sPacket.ping, (payload & tt))
ping_of ProtocolKind.v1_21_1 payload = DecodedC2s.v1_21_1 (C2s21.C2sPacket.ping, (payload & tt))

-- What it is answered.
abbrev pub status_answer : ProtocolKind → ServerConfig → Outgoing
status_answer ProtocolKind.v1_20_1 config =
    (S2c20.Status.s2c_status_response, (status_response config ProtocolKind.v1_20_1 & tt))
status_answer ProtocolKind.v1_21_1 config =
    (S2c21.Status.s2c_status_response, (status_response config ProtocolKind.v1_21_1 & tt))

abbrev pub pong_of : ProtocolKind → ℤ → Outgoing
pong_of ProtocolKind.v1_20_1 payload = (S2c20.Status.s2c_pong, (payload & tt))
pong_of ProtocolKind.v1_21_1 payload = (S2c21.Status.s2c_pong, (payload & tt))

-- A connection in Status, with anything in its read buffer.
abbrev pub in_status : ProtocolKind → ServerConfig → Bytes → Bytes → Connection
in_status kind config stream buffer = record (new_connection config kind) {
  state = State.status;
  stream = stream;
  buffer = buffer;
}

module _ ⦃c : Crates⦄ ⦃z : Zlib⦄ ⦃a : Assets⦄ where
  pub answers_status :
      (kind : ProtocolKind) (config : ServerConfig) (stream buffer bytes : Bytes)
      → frame none (status_answer kind config).0 (status_answer kind config).1 ≡ ok bytes
      → dispatch_packet (status_request_of kind) (in_status kind config stream buffer)
        ≡ (ok tt, in_status kind config (stream ++ bytes) buffer)
  unfolding dispatch_packet
  answers_status ProtocolKind.v1_20_1 config stream buffer bytes e = write_packet_lem _ _ _ bytes e
  answers_status ProtocolKind.v1_21_1 config stream buffer bytes e = write_packet_lem _ _ _ bytes e

  pub answers_ping :
      (kind : ProtocolKind) (config : ServerConfig) (payload : ℤ) (stream buffer bytes : Bytes)
      → frame none (pong_of kind payload).0 (pong_of kind payload).1 ≡ ok bytes
      → dispatch_packet (ping_of kind payload) (in_status kind config stream buffer)
        ≡ (ok tt, in_status kind config (stream ++ bytes) buffer)
  unfolding dispatch_packet
  answers_ping ProtocolKind.v1_20_1 config payload stream buffer bytes e =
      write_packet_lem _ _ _ bytes e
  answers_ping ProtocolKind.v1_21_1 config payload stream buffer bytes e =
      write_packet_lem _ _ _ bytes e
