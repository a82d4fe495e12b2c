-- ===== src/Server/Protocol.antt =====
-- crates/statik_server/src/protocol.rs: the choice of the protocol version at run time.
use Prim.Native.String.{String}
use statik_rs.Prelude.{ℕ, ◌||◌, List, if◌then◌else◌, ◌≡◌, sym, ap}
use statik_rs.Core.Crates.{Crates}
use statik_rs.Core.Result.{
  Result, ok, err, ◌>>=◌, >>=-eq-ok, ok_inj, Bytes, transfer_rejected, unknown_version,
}
use statik_rs.Core.State.{State, ClientIntent}
use statik_rs.Derive.{Decoded, decode_in_state}
use statik_rs.Proto.V1_20_1
use statik_rs.Proto.V1_20_1.C2s as C2s20
use statik_rs.Proto.V1_21_1
use statik_rs.Proto.V1_21_1.C2s as C2s21
use statik_rs.Server.Text.{text, text_eq, trim, to_ascii_lowercase}

pub data ProtocolKind : Type 0 where
  v1_20_1 v1_21_1 : ProtocolKind

-- `ProtocolKind::from_str`, on the code points of the version string.
unfoldable pub from_str : List ℕ → Result ProtocolKind
unfolding trim
from_str s =
    let name = to_ascii_lowercase (trim s) in
    if text_eq name (text "1.20.1") || text_eq name (text "763")
    then ok ProtocolKind.v1_20_1
    else if text_eq name (text "1.21.1") || text_eq name (text "767")
    then ok ProtocolKind.v1_21_1
    else err unknown_version

abbrev pub protocol_version : ProtocolKind → ℕ
protocol_version ProtocolKind.v1_20_1 = V1_20_1.protocol_version
protocol_version ProtocolKind.v1_21_1 = V1_21_1.protocol_version

abbrev pub minecraft_version : ProtocolKind → String
minecraft_version ProtocolKind.v1_20_1 = V1_20_1.minecraft_version
minecraft_version ProtocolKind.v1_21_1 = V1_21_1.minecraft_version

abbrev pub default_protocol : ProtocolKind
default_protocol = ProtocolKind.v1_20_1

pub data DecodedC2s : Type 0 where
  v1_20_1 : Decoded C2s20.packet → DecodedC2s
  v1_21_1 : Decoded C2s21.packet → DecodedC2s

-- `DecodedC2S::decode`.
unfoldable pub decode_c2s : ⦃c : Crates⦄ → ProtocolKind → State → Bytes → Result DecodedC2s
decode_c2s ProtocolKind.v1_20_1 state bytes = do
  p ← decode_in_state C2s20.packet C2s20.variants state bytes
  ok (DecodedC2s.v1_20_1 p)
decode_c2s ProtocolKind.v1_21_1 state bytes = do
  p ← decode_in_state C2s21.packet C2s21.variants state bytes
  ok (DecodedC2s.v1_21_1 p)

unfoldable pub intent_to_state : ClientIntent → Result State
intent_to_state ClientIntent.status = ok State.status
intent_to_state ClientIntent.login = ok State.login
intent_to_state ClientIntent.transfer = err transfer_rejected

-- The version that a packet belongs to.
abbrev pub packet_kind : DecodedC2s → ProtocolKind
packet_kind (DecodedC2s.v1_20_1 p) = ProtocolKind.v1_20_1
packet_kind (DecodedC2s.v1_21_1 p) = ProtocolKind.v1_21_1

pub decode_c2s-kind :
    ⦃c : Crates⦄
    → (kind : ProtocolKind) (state : State) (bytes : Bytes) (packet : DecodedC2s)
    → decode_c2s kind state bytes ≡ ok packet
    → packet_kind packet ≡ kind
unfolding decode_c2s
decode_c2s-kind ProtocolKind.v1_20_1 state bytes packet h =
    let (p, read, made) =
      >>=-eq-ok (decode_in_state C2s20.packet C2s20.variants state bytes) _ packet h in
    ap packet_kind (sym (ok_inj made))
decode_c2s-kind ProtocolKind.v1_21_1 state bytes packet h =
    let (p, read, made) =
      >>=-eq-ok (decode_in_state C2s21.packet C2s21.variants state bytes) _ packet h in
    ap packet_kind (sym (ok_inj made))
