-- ===== src/Derive/Domain.antt =====
-- The bodies of the packets that a packet group decodes.
use mathlib.Core.Path.{subst}
use statik_rs.Prelude.{◌≡◌, true, Bool-cases, inl, inr, List, [], ◌∷◌}
use statik_rs.Prelude.Int.{ℤ}
use statik_rs.Core.Crates.{Crates, IsByteOrder}
use statik_rs.Core.Result.{ok, >>=-eq-ok, ok_inj, Bytes}
use statik_rs.Core.State.{State}
use statik_rs.Core.VarInt.{decode_varint}
use statik_rs.Core.Wire.Domain.{is_plain, decode-IsValid}
use statik_rs.Core.Wire.Valid.{IsValid}
use statik_rs.Derive.{
  Packet, Decoded, has_key, as_variant, decode_packet, decode_variant, decode_in_state,
}

module _ ⦃c : Crates⦄ (order : IsByteOrder c) {V : Type 0} (packet : V → Packet) where
  -- The body is in the range of its Rust types.
  abbrev pub HasValidBody : Decoded packet → Type 0
  HasValidBody (v, body) = IsValid (packet v).fields body

  module _ (plain : (v : V) → is_plain (packet v).fields ≡ true) where
    as_variant-HasValidBody :
        (v : V) (bytes : Bytes) (d : Decoded packet)
        → as_variant packet v (decode_packet (packet v) bytes) ≡ ok d
        → HasValidBody d
    unfolding decode_packet
    as_variant-HasValidBody v bytes d h =
        let (p, read, made) = >>=-eq-ok (decode_packet (packet v) bytes) (λ p. ok (v, p.0)) d h in
        subst HasValidBody (ok_inj made)
          (decode-IsValid order (packet v).fields (plain v) bytes p.0 p.1 read)

    decode_variant-HasValidBody :
        (vs : List V) (s : State) (id : ℤ) (bytes : Bytes) (d : Decoded packet)
        → decode_variant packet vs s id bytes ≡ ok d
        → HasValidBody d
    unfolding decode_variant
    decode_variant-HasValidBody [] s id bytes d h = cc
    decode_variant-HasValidBody (v ∷ vs) s id bytes d h =
        elim (Bool-cases (has_key (packet v) s id)) [
          | inl found ↦ as_variant-HasValidBody v bytes d (rw found at h)
          | inr other ↦ decode_variant-HasValidBody vs s id bytes d (rw other at h)
        ]

    pub decode_in_state-HasValidBody :
        (vs : List V) (s : State) (bytes : Bytes) (d : Decoded packet)
        → decode_in_state packet vs s bytes ≡ ok d
        → HasValidBody d
    unfolding decode_in_state
    decode_in_state-HasValidBody vs s bytes d h =
        let ((id, rest), read, chosen) = >>=-eq-ok (decode_varint bytes) _ d h in
        decode_variant-HasValidBody vs s id rest d chosen
