-- ===== src/Derive.antt =====
-- crates/statik_derive/src/packet.rs and packet_group.rs: what the derive macros `Packet` and
-- `PacketGroup` generate, as functions of the packet's id, state and fields.
pub mod Group
pub mod Domain
use statik_rs.Prelude.{Bool, ◌&&◌, List, [], ◌∷◌, ◌++◌, if◌then◌else◌}
use statik_rs.Prelude.Int.{ℤ, eq_ℤ}
use statik_rs.Core.Crates.{Crates}
use statik_rs.Core.Result.{Result, ok, err, ◌>>=◌, Bytes, no_packet}
use statik_rs.Core.State.{State, state_eq}
use statik_rs.Core.VarInt.{encode_varint, decode_varint}
use statik_rs.Core.Wire.{Ty, Val, encode, decode}

-- A struct with `#[packet(id = …, state = …)]`.
pub record Packet : Type 0 where
  pub id : ℤ
  pub state : State
  pub fields : Ty

abbrev pub Body : Packet → Type 0
Body p = Val p.fields

-- A field and the fields behind it.
infixr 2 ◌&◌
abbrev pub ◌&◌ : {A B : Type 0} → A → B → A × B
a & b = (a, b)

-- The test that a packet group makes before it decodes as `p`.
abbrev pub has_key : Packet → State → ℤ → Bool
has_key p s id = state_eq s p.state && eq_ℤ id p.id

-- A value of an enum that derives `PacketGroup`: a variant with its packet.
abbrev pub Decoded : {V : Type 0} → (V → Packet) → Type 0
Decoded {V} packet = (v : V) × Body (packet v)

module _ ⦃c : Crates⦄ where
  -- The derived `Encode`: the packet id, then the fields.
  unfoldable pub encode_packet : (p : Packet) → Body p → Result Bytes
  encode_packet p body = do fields ← encode p.fields body; ok (encode_varint p.id ++ fields)

  -- The derived `Decode`: the fields alone.
  unfoldable pub decode_packet : (p : Packet) → Bytes → Result (Body p × Bytes)
  decode_packet p bytes = decode p.fields bytes

  module _ {V : Type 0} (packet : V → Packet) where
    -- What is returned for a variant; the bytes behind the packet are dropped.
    abbrev pub as_variant : (v : V) → Result (Body (packet v) × Bytes) → Result (Decoded packet)
    as_variant v result = do (body, rest) ← result; ok (v, body)

    -- The chain of `if state == P::STATE && _id == P::ID` over the variants in order.
    unfoldable pub decode_variant : List V → State → ℤ → Bytes → Result (Decoded packet)
    decode_variant [] s id bytes = err (no_packet id s)
    decode_variant (v ∷ vs) s id bytes =
        if has_key (packet v) s id
        then as_variant v (decode_packet (packet v) bytes)
        else decode_variant vs s id bytes

    -- `decode_in_state`.
    unfoldable pub decode_in_state : List V → State → Bytes → Result (Decoded packet)
    decode_in_state vs s bytes = do (id, rest) ← decode_varint bytes; decode_variant vs s id rest
