-- ===== src/Server/Connection/Frame/Received.antt =====
-- The bodies of the packets that `try_parse_packet` hands to the handlers.
use mathlib.Core.Path.{subst}
use statik_rs.Prelude.{◌≡◌, refl, true, some}
use statik_rs.Core.Crates.{Crates, IsByteOrder}
use statik_rs.Core.Result.{ok, >>=-eq-ok, ok_inj, Bytes}
use statik_rs.Core.State.{State}
use statik_rs.Core.Wire.Domain.{is_plain}
use statik_rs.Core.Wire.Valid.{IsValid}
use statik_rs.Derive.{decode_in_state}
use statik_rs.Derive.Domain.{decode_in_state-HasValidBody}
use statik_rs.Proto.V1_20_1.C2s as C2s20
use statik_rs.Proto.V1_21_1.C2s as C2s21
use statik_rs.Server.Connection.{Connection, Zlib}
use statik_rs.Server.Connection.Frame.{try_parse_packet}
use statik_rs.Server.Connection.Frame.Soundness.{try_parse_packet-Found}
use statik_rs.Server.Protocol.{ProtocolKind, DecodedC2s, decode_c2s}

-- Every integer fits its width, every string is UTF-8 and no longer than an `i32` can say, every
-- block position fits its packed form.
abbrev pub IsInDomain : ⦃c : Crates⦄ → DecodedC2s → Type 0
IsInDomain (DecodedC2s.v1_20_1 (v, body)) = IsValid (C2s20.packet v).fields body
IsInDomain (DecodedC2s.v1_21_1 (v, body)) = IsValid (C2s21.packet v).fields body

plain_20 : (v : C2s20.C2sPacket) → is_plain (C2s20.packet v).fields ≡ true
plain_20 C2s20.C2sPacket.handshake = refl
plain_20 _ = refl

plain_21 : (v : C2s21.C2sPacket) → is_plain (C2s21.packet v).fields ≡ true
plain_21 C2s21.C2sPacket.handshake = refl
plain_21 _ = refl

module _ ⦃c : Crates⦄ (order : IsByteOrder c) where
  decode_c2s-IsInDomain :
      (kind : ProtocolKind) (state : State) (bytes : Bytes) (packet : DecodedC2s)
      → decode_c2s kind state bytes ≡ ok packet
      → IsInDomain packet
  unfolding decode_c2s
  decode_c2s-IsInDomain ProtocolKind.v1_20_1 state bytes packet h =
      let (d, read, made) =
        >>=-eq-ok (decode_in_state C2s20.packet C2s20.variants state bytes) _ packet h in
      subst IsInDomain (ok_inj made)
        (decode_in_state-HasValidBody order C2s20.packet plain_20 C2s20.variants state bytes d read)
  decode_c2s-IsInDomain ProtocolKind.v1_21_1 state bytes packet h =
      let (d, read, made) =
        >>=-eq-ok (decode_in_state C2s21.packet C2s21.variants state bytes) _ packet h in
      subst IsInDomain (ok_inj made)
        (decode_in_state-HasValidBody order C2s21.packet plain_21 C2s21.variants state bytes d read)

  -- Whatever a client sends, a packet that `try_parse_packet` returns has a body in the range of
  -- its Rust types: integers fit their width, strings are UTF-8 of at most 2147483647 bytes, block
  -- positions fit their packed fields, and sequences have at most 2147483647 elements.
  pub try_parse_packet-IsInDomain :
      ⦃z : Zlib⦄
      → (conn conn' : Connection) (packet : DecodedC2s)
      → try_parse_packet conn ≡ (ok (some packet), conn')
      → IsInDomain packet
  try_parse_packet-IsInDomain conn conn' packet h =
      let found = try_parse_packet-Found conn conn' packet h in
      decode_c2s-IsInDomain conn.protocol conn.state found.2 packet found.9
