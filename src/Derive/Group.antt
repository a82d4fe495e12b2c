-- ===== src/Derive/Group.antt =====
-- Decoding by a packet group: the right variant is found, and only packets of the state are.
use mathlib.Core.Path.{subst}
use statik_rs.Prelude.{ℕ, zero, suc, ◌^◌, ◌≡◌, refl, sym, ap, Bool, true, false, not, ◌&&◌, arith}
use statik_rs.Prelude.{some, List, [], ◌∷◌, ◌++◌, get_elem?, inl, inr}
use statik_rs.Prelude.{Bool-cases}
use statik_rs.Prelude.Int.{ℤ, IsInt, eq_ℤ_refl, eq_ℤ→eq}
use statik_rs.Core.Crates.{Crates, IsByteOrder}
use statik_rs.Core.Result.{Result, ok, err, >>=-eq-ok, Bytes}
use statik_rs.Core.State.{State, state_eq}
use statik_rs.Core.VarInt.{encode_varint, decode_varint}
use statik_rs.Core.VarInt.RoundTrip.{decode_varint-encode_varint}
use statik_rs.Core.Wire.Valid.{IsValid, fills_frame}
use statik_rs.Core.Wire.RoundTrip.{decode-encode_frame}
use statik_rs.Derive.{
  Packet, Body, has_key, encode_packet, decode_packet, Decoded, as_variant, decode_variant,
}
use statik_rs.Derive.{decode_in_state}

pub state_eq_refl : (s : State) → state_eq s s ≡ true
state_eq_refl State.handshake = refl
state_eq_refl State.status = refl
state_eq_refl State.login = refl
state_eq_refl State.configuration = refl
state_eq_refl State.play = refl

pub state_eq→eq : (s t : State) → state_eq s t ≡ true → s ≡ t
state_eq→eq s t h = ground arith

-- No packet of the list has the key of `p`.
abbrev pub key_is_new : {V : Type 0} → (V → Packet) → Packet → List V → Bool
key_is_new packet p [] = true
key_is_new packet p (v ∷ vs) =
    not (has_key p (packet v).state (packet v).id) && key_is_new packet p vs

-- No two variants share both state and id, so that the order of the tests does not matter.
unfoldable pub keys_distinct : {V : Type 0} → (V → Packet) → List V → Bool
keys_distinct packet [] = true
keys_distinct packet (v ∷ vs) = key_is_new packet (packet v) vs && keys_distinct packet vs

-- Every packet of the list has a 32-bit id and marks the end of its fields.
abbrev pub IsWellFormed : Packet → Type 0
IsWellFormed p = IsInt (2 ^ 32) p.id × (fills_frame p.fields ≡ true)

module _ {V : Type 0} (packet : V → Packet) where
  key_differs :
      (p : Packet) (vs : List V) (i : ℕ) (v : V)
      → key_is_new packet p vs ≡ true
      → get_elem? vs i ≡ some v
      → has_key p (packet v).state (packet v).id ≡ false
  key_differs p [] i v new at = cc
  key_differs p (u ∷ vs) zero v new at = ground arith
  key_differs p (u ∷ vs) (suc i) v new at = key_differs p vs i v (ground arith) at

  module _ ⦃c : Crates⦄ where
    decode_here :
        (vs : List V) (bytes rest : Bytes) (u : V) (body : Body (packet u))
        → decode_packet (packet u) bytes ≡ ok (body, rest)
        → decode_variant packet (u ∷ vs) (packet u).state (packet u).id bytes ≡ ok (u, body)
    unfolding decode_variant
    decode_here vs bytes rest u body e =
        rw (state_eq_refl (packet u).state, eq_ℤ_refl (packet u).id, e)

    moved :
        (vs : List V) (bytes rest : Bytes) (u v : V)
        → u ≡ v
        → (body : Body (packet v)) → decode_packet (packet v) bytes ≡ ok (body, rest)
        → decode_variant packet (u ∷ vs) (packet v).state (packet v).id bytes ≡ ok (v, body)
    moved vs bytes rest u v same =
        subst
          (λ w.
            (body : Body (packet w))
            → decode_packet (packet w) bytes ≡ ok (body, rest)
            → decode_variant packet (u ∷ vs) (packet w).state (packet w).id bytes ≡ ok (w, body))
          same (decode_here vs bytes rest u)

    decode_variant_at :
        (vs : List V) (i : ℕ) (v : V) (body : Body (packet v)) (bytes rest : Bytes)
        → keys_distinct packet vs ≡ true
        → get_elem? vs i ≡ some v
        → decode_packet (packet v) bytes ≡ ok (body, rest)
        → decode_variant packet vs (packet v).state (packet v).id bytes ≡ ok (v, body)
    unfolding decode_variant keys_distinct
    decode_variant_at [] i v body bytes rest distinct at e = cc
    decode_variant_at (u ∷ vs) zero v body bytes rest distinct at e =
        moved vs bytes rest u v (cc) body e
    decode_variant_at (u ∷ vs) (suc i) v body bytes rest distinct at e =
        rw (key_differs (packet u) vs i v (ground arith) at)
          (decode_variant_at vs i v body bytes rest (ground arith) at e)

    -- In a packet group in which no two variants share state and id: for a variant that is
    -- listed, whose id is an `i32` and whose `RawBytes`, if any, stands last, and for every
    -- valid body, the packet is encoded, and `decode_in_state` in its state gives the variant
    -- and the body.
    pub decode_in_state-encode_packet :
        IsByteOrder c
        → (vs : List V) → keys_distinct packet vs ≡ true
        → (i : ℕ) (v : V) (body : Body (packet v)) → get_elem? vs i ≡ some v
        → IsWellFormed (packet v)
        → IsValid (packet v).fields body
        → (bytes : Bytes) × (encode_packet (packet v) body ≡ ok bytes)
          × (decode_in_state packet vs (packet v).state bytes ≡ ok (v, body))
    unfolding encode_packet decode_in_state
    decode_in_state-encode_packet order vs distinct i v body at formed valid =
        let (fields, e, back) = decode-encode_frame order (packet v).fields body formed.1 valid in
        (
          encode_varint (packet v).id ++ fields,
          rw e,
          rw (decode_varint-encode_varint (packet v).id fields formed.0)
              (decode_variant_at vs i v body fields [] distinct at (unfold decode_packet in back)),
        )

    variant_of : V → Result (Decoded packet) → V
    variant_of u (ok d) = d.0
    variant_of u (err e) = u

    as_variant_inv :
        (u : V) (r : Result (Body (packet u) × Bytes)) (d : Decoded packet)
        → as_variant packet u r ≡ ok d
        → u ≡ d.0
    unfolding variant_of
    as_variant_inv u (ok (body, rest)) d h = ap (λ (r : Result (Decoded packet)). variant_of u r) h
    as_variant_inv u (err e) d h = cc

    key_of_variant :
        (v : V) (d : Decoded packet) (s : State) (id : ℤ)
        → has_key (packet v) s id ≡ true
        → v ≡ d.0
        → ((packet d.0).state ≡ s) × ((packet d.0).id ≡ id)
    key_of_variant v d s id found same = rw (← same) (
      sym (state_eq→eq s (packet v).state (ground arith)),
      sym (eq_ℤ→eq id (packet v).id (ground arith)),
    )

    decode_variant_state :
        (vs : List V) (s : State) (id : ℤ) (bytes : Bytes) (d : Decoded packet)
        → decode_variant packet vs s id bytes ≡ ok d
        → ((packet d.0).state ≡ s) × ((packet d.0).id ≡ id)
    unfolding decode_variant
    decode_variant_state [] s id bytes d h = cc
    decode_variant_state (v ∷ vs) s id bytes d h = elim (Bool-cases (has_key (packet v) s id)) [
      | inl found ↦
          key_of_variant v d s id found
            (as_variant_inv v (decode_packet (packet v) bytes) d (rw found at h))
      | inr other ↦ decode_variant_state vs s id bytes d (rw other at h)
    ]

    -- A packet that `decode_in_state` returns belongs to the state that was asked for, and its
    -- id is the VarInt that the input starts with.
    pub decode_in_state_key :
        (vs : List V) (s : State) (bytes : Bytes) (d : Decoded packet)
        → decode_in_state packet vs s bytes ≡ ok d
        → (rest : Bytes) × (decode_varint bytes ≡ ok ((packet d.0).id, rest))
          × ((packet d.0).state ≡ s)
    unfolding decode_in_state
    decode_in_state_key vs s bytes d h =
        let ((id, rest), read, chosen) = >>=-eq-ok (decode_varint bytes) _ d h in
        let (same_state, same_id) = decode_variant_state vs s id rest d chosen in
        (rest, rw same_id read, same_state)
