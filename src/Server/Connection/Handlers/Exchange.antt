-- ===== src/Server/Connection/Handlers/Exchange.antt =====
-- `handle_handshake`: the handshake that comes first, accepted and refused.
use statik_rs.Prelude.{ℕ, ◌≡◌, refl, ap, true, false}
use statik_rs.Prelude.{◌==◌}
use statik_rs.Prelude.Int.{ℤ}
use statik_rs.Core.Crates.{Crates}
use statik_rs.Core.Result.{Error, ok, err, version_mismatch, transfer_rejected, Bytes}
use statik_rs.Core.State.{State, ClientIntent}
use statik_rs.Core.VarInt.{to_usize}
use statik_rs.Derive.{◌&◌}
use statik_rs.Proto.V1_20_1.C2s as C2s20
use statik_rs.Proto.V1_21_1.C2s as C2s21
use statik_rs.Server.Config.{ServerConfig}
use statik_rs.Server.Connection.{Connection, Zlib, Assets, new_connection}
use statik_rs.Server.Connection.Handlers.{shake_hands, dispatch_packet, handler_of}
use statik_rs.Server.Protocol.{ProtocolKind, DecodedC2s, protocol_version, intent_to_state}

-- The handshake of either version.
abbrev pub handshake_of : ProtocolKind → ℤ → Bytes → ℕ → ClientIntent → DecodedC2s
handshake_of ProtocolKind.v1_20_1 version host port intent =
    DecodedC2s.v1_20_1 (C2s20.C2sPacket.handshake, (version & host & port & intent & tt))
handshake_of ProtocolKind.v1_21_1 version host port intent =
    DecodedC2s.v1_21_1 (C2s21.C2sPacket.handshake, (version & host & port & intent & tt))

-- Why a handshake is refused: another protocol number than the server's, or else a transfer.
pub data IsRefused (kind : ProtocolKind) (version : ℤ) (intent : ClientIntent)
    : Error → Type 0 where
  other_version :
      (to_usize version == protocol_version kind) ≡ false
      → IsRefused kind version intent version_mismatch
  transfer :
      (to_usize version == protocol_version kind) ≡ true
      → intent ≡ ClientIntent.transfer
      → IsRefused kind version intent transfer_rejected

module _ ⦃c : Crates⦄ ⦃z : Zlib⦄ ⦃a : Assets⦄ where
  pub dispatch_packet-eq :
      (packet : DecodedC2s) (conn : Connection) (s : State)
      → conn.state ≡ s
      → dispatch_packet packet conn ≡ handler_of s packet conn
  unfolding dispatch_packet
  dispatch_packet-eq packet conn s at = ap (λ (t : State). handler_of t packet conn) at

  -- A handshake that agrees, whatever is in the read buffer behind it.
  pub shaken :
      (kind : ProtocolKind) (config : ServerConfig) (buffer : Bytes) (version : ℤ) (host : Bytes)
      → (port : ℕ) (intent : ClientIntent) (s : State)
      → (to_usize version == protocol_version kind) ≡ true
      → intent_to_state intent ≡ ok s
      → dispatch_packet
          (handshake_of kind version host port intent)
          (record (new_connection config kind) { buffer = buffer })
        ≡ (ok tt, record (new_connection config kind) { buffer = buffer; state = s })
  unfolding dispatch_packet shake_hands
  shaken ProtocolKind.v1_20_1 config buffer version host port intent s e f = rw (e, f) refl
  shaken ProtocolKind.v1_21_1 config buffer version host port intent s e f = rw (e, f) refl

  not_shaken :
      (kind : ProtocolKind) (version : ℤ) (intent : ClientIntent) (e : Error) (conn : Connection)
      → conn.protocol ≡ kind
      → IsRefused kind version intent e
      → shake_hands version intent conn ≡ (err e, conn)
  unfolding shake_hands intent_to_state
  not_shaken kind version intent e conn same (IsRefused.other_version other) = rw (same, other) refl
  not_shaken kind version intent e conn same (IsRefused.transfer agreed asked_for) =
      rw (same, agreed, asked_for) refl

  -- A handshake that is refused, whatever is in the read buffer behind it.
  pub refuses :
      (kind : ProtocolKind) (config : ServerConfig) (buffer : Bytes) (version : ℤ) (host : Bytes)
      → (port : ℕ) (intent : ClientIntent) (e : Error) → IsRefused kind version intent e
      → dispatch_packet
          (handshake_of kind version host port intent)
          (record (new_connection config kind) { buffer = buffer })
        ≡ (err e, record (new_connection config kind) { buffer = buffer })
  unfolding dispatch_packet
  refuses ProtocolKind.v1_20_1 config buffer version host port intent e h =
      not_shaken _ version intent e _ refl h
  refuses ProtocolKind.v1_21_1 config buffer version host port intent e h =
      not_shaken _ version intent e _ refl h
