-- ===== src/Server/Connection/Loop/KeepAlive.antt =====
-- The keep-alive timer of `handle_connection`: which ids are sent, and when none is.
use statik_rs.Prelude.{ℕ, zero, suc, ◌+◌, ◌-◌, ◌/◌, ◌%◌, ◌^◌, ◌≡◌, refl, sym, ap, ◌∙◌, ◌++◌, arith}
use statik_rs.Prelude.{none, some, List, [], ◌∷◌, replicate, append_assoc, append-nil, Bool, false}
use statik_rs.Prelude.{Bool-cases, inl, inr, length, ltb, if◌then◌else◌}
use statik_rs.Prelude.Int.{
  ℤ, pos, negsuc, IsInt, as_signed, as_unsigned, as_signed-as_unsigned, as_signed-IsInt,
  as_unsigned-as_signed,
}
use statik_rs.Core.Crates.{Crates}
use statik_rs.Core.Result.{ok, Bytes, ok_inj}
use statik_rs.Core.State.{State, state_eq}
use statik_rs.Core.VarInt.{decode_varint, decode_loop}
use statik_rs.Derive.{◌&◌}
use statik_rs.Derive.Group.{state_eq→eq}
use statik_rs.Proto.V1_20_1.S2c as S2c20
use statik_rs.Proto.V1_21_1.S2c as S2c21
use statik_rs.Server.Connection.{Connection, Zlib, Assets}
use statik_rs.Server.Connection.Burst.{Outgoing}
use statik_rs.Server.Connection.Frame.{frame, try_parse_packet, parse_read}
use statik_rs.Server.Connection.Handlers.Sent.{frames, frames-cons, extend, write_packet_lem}
use statik_rs.Server.Connection.Loop.{
  Event, Outcome, wrapping_next, write_keep_alive, written_id, select, parsed, drain, drain_all,
  selected, after_drain, handle_connection,
}
use statik_rs.Server.Protocol.{ProtocolKind}

abbrev pub keep_alive_of : ProtocolKind → ℤ → Outgoing
keep_alive_of ProtocolKind.v1_20_1 id = (S2c20.Play.s2c_keep_alive, (id & tt))
keep_alive_of ProtocolKind.v1_21_1 id = (S2c21.Play.s2c_keep_alive, (id & tt))

-- The `i64` n after id, with wrap-around.
abbrev pub add_i64 : ℤ → ℕ → ℤ
add_i64 id n = as_signed (2 ^ 64) (as_unsigned (2 ^ 64) id + n)

-- n keep-alives with the ids that follow one another from `id` on.
abbrev pub keep_alives : ProtocolKind → ℤ → ℕ → List Outgoing
keep_alives kind id zero = []
keep_alives kind id (suc n) = keep_alive_of kind id ∷ keep_alives kind (add_i64 id 1) n

-- A cast depends on the residue only.
as_signed-mod : (a b : ℕ) → a % 2 ^ 64 ≡ b % 2 ^ 64 → as_signed (2 ^ 64) a ≡ as_signed (2 ^ 64) b
as_signed-mod a b e =
    ap (λ (r : ℕ). if ltb r (2 ^ 64 / 2) then pos r else negsuc (2 ^ 64 - 1 - r)) e

add_i64-suc : (id : ℤ) (n : ℕ) → add_i64 (add_i64 id 1) n ≡ add_i64 id (suc n)
add_i64-suc id n =
    let u = as_unsigned (2 ^ 64) id in
    let one : as_unsigned (2 ^ 64) (as_signed (2 ^ 64) (u + 1)) ≡ (u + 1) % 2 ^ 64 =
      ap (as_unsigned (2 ^ 64)) (as_signed-mod (u + 1) ((u + 1) % 2 ^ 64) (omega arith))
      ∙ as_unsigned-as_signed (2 ^ 64) ((u + 1) % 2 ^ 64) (omega arith) in
    ap (λ (v : ℕ). as_signed (2 ^ 64) (v + n)) one
    ∙ as_signed-mod ((u + 1) % 2 ^ 64 + n) (u + suc n) (omega arith)

module _ ⦃c : Crates⦄ ⦃z : Zlib⦄ where
  nothing_parsed : (conn : Connection) → conn.buffer ≡ [] → try_parse_packet conn ≡ (ok none, conn)
  unfolding try_parse_packet decode_varint decode_loop
  nothing_parsed conn empty = ap (λ (b : Bytes). parse_read (decode_varint b) conn) empty

  writes_keep_alive :
      (kind : ProtocolKind) (id : ℤ) (conn : Connection) (bytes : Bytes)
      → frame conn.compression_threshold (keep_alive_of kind id).0 (keep_alive_of kind id).1
        ≡ ok bytes
      → write_keep_alive kind id conn ≡ (ok tt, extend conn bytes)
  writes_keep_alive ProtocolKind.v1_20_1 id conn bytes e = write_packet_lem _ _ conn bytes e
  writes_keep_alive ProtocolKind.v1_21_1 id conn bytes e = write_packet_lem _ _ conn bytes e

  ticks_in_play :
      (id : ℤ) (conn : Connection) (bytes : Bytes)
      → conn.state ≡ State.play
      → frame conn.compression_threshold
          (keep_alive_of conn.protocol id).0
          (keep_alive_of conn.protocol id).1
        ≡ ok bytes
      → select Event.tick id conn ≡ (ok (wrapping_next id), extend conn bytes)
  unfolding select
  ticks_in_play id conn bytes at e =
      ap
        (λ (s : State).
          if state_eq s State.play
          then written_id id (write_keep_alive conn.protocol id conn)
          else (ok id, conn))
        at
      ∙ ap (written_id id) (writes_keep_alive conn.protocol id conn bytes e)

  module _ ⦃a : Assets⦄ where
    drained : (conn : Connection) → conn.buffer ≡ [] → drain_all conn ≡ some (ok tt, conn)
    unfolding drain
    drained conn empty = ap (parsed (drain (length conn.buffer))) (nothing_parsed conn empty)

    one_tick :
        (n : ℕ) (id : ℤ) (conn : Connection) (bytes : Bytes)
        → conn.state ≡ State.play
        → conn.buffer ≡ []
        → frame conn.compression_threshold
            (keep_alive_of conn.protocol id).0
            (keep_alive_of conn.protocol id).1
          ≡ ok bytes
        → handle_connection (Event.tick ∷ replicate n Event.tick) id conn
          ≡ handle_connection (replicate n Event.tick) (wrapping_next id) (extend conn bytes)
    unfolding handle_connection
    one_tick n id conn bytes at empty e =
        ap
          (λ r.
            after_drain
              (λ id' conn'.
                selected (handle_connection (replicate n Event.tick)) (select Event.tick id' conn'))
              r id)
          (drained conn empty)
        ∙ ap (selected (handle_connection (replicate n Event.tick)))
            (ticks_in_play id conn bytes at e)

    waiting-eq :
        (conn : Connection) (id id' : ℤ) (l l' : Bytes)
        → id ≡ id'
        → l ≡ l'
        → Outcome.waiting id (record conn { stream = l })
          ≡ Outcome.waiting id' (record conn { stream = l' })
    waiting-eq conn id id' l l' e f = cc

    ticks_on :
        (n : ℕ) (id : ℤ) (conn : Connection) (bytes : Bytes)
        → IsInt (2 ^ 64) id
        → conn.state ≡ State.play
        → conn.buffer ≡ []
        → frames conn.compression_threshold (keep_alives conn.protocol id n) ≡ ok bytes
        → handle_connection (replicate n Event.tick) id conn
          ≡ Outcome.waiting (add_i64 id n) (extend conn bytes)
    unfolding handle_connection frames
    ticks_on zero id conn bytes fits at empty e =
        ap (λ r. after_drain Outcome.waiting r id) (drained conn empty)
        ∙ waiting-eq conn id (add_i64 id 0) conn.stream (conn.stream ++ bytes)
            (sym (as_signed-as_unsigned (2 ^ 64) id fits) ∙ ap (as_signed (2 ^ 64)) (omega arith))
            (sym (append-nil conn.stream) ∙ ap (λ (l : Bytes). conn.stream ++ l) (ok_inj e))
    ticks_on (suc n) id conn bytes fits at empty e =
        let (first, sent, others, more, joined) =
          frames-cons conn.compression_threshold (keep_alive_of conn.protocol id).0
            (keep_alive_of conn.protocol id).1 (keep_alives conn.protocol (add_i64 id 1) n) bytes
            e in
        one_tick n id conn first at empty sent
        ∙ ticks_on n (add_i64 id 1) (extend conn first) others
            (as_signed-IsInt (2 ^ 64) (as_unsigned (2 ^ 64) id + 1) (omega arith) (omega arith)) at
            empty more
        ∙ waiting-eq conn (add_i64 (add_i64 id 1) n) (add_i64 id (suc n))
            ((conn.stream ++ first) ++ others) (conn.stream ++ bytes) (add_i64-suc id n)
            (append_assoc conn.stream first others ∙ ap (λ (l : Bytes). conn.stream ++ l) joined)

    ticks_off :
        (n : ℕ) (id : ℤ) (conn : Connection)
        → state_eq conn.state State.play ≡ false
        → conn.buffer ≡ []
        → handle_connection (replicate n Event.tick) id conn ≡ Outcome.waiting id conn
    unfolding handle_connection select
    ticks_off zero id conn off empty =
        ap (λ r. after_drain Outcome.waiting r id) (drained conn empty)
    ticks_off (suc n) id conn off empty =
        ap
          (λ r.
            after_drain
              (λ id' conn'.
                selected (handle_connection (replicate n Event.tick)) (select Event.tick id' conn'))
              r id)
          (drained conn empty)
        ∙ ap
            (λ (b : Bool).
              selected (handle_connection (replicate n Event.tick)) (
                if b
                then written_id id (write_keep_alive conn.protocol id conn)
                else (ok id, conn)))
            off
        ∙ ticks_off n id conn off empty

    -- With nothing in the read buffer, n ticks of the timer send n keep-alives of the connection's
    -- version in Play, when they can be encoded, with ids that follow one another from the next id
    -- on and wrap around as an `i64`, and the next id is then n further; in any other state they
    -- send nothing and leave the next id. Nothing else changes.
    pub handle_connection_ticks :
        (n : ℕ) (id : ℤ) (conn : Connection) (bytes : Bytes)
        → IsInt (2 ^ 64) id
        → conn.buffer ≡ []
        → frames conn.compression_threshold
            (if state_eq conn.state State.play then keep_alives conn.protocol id n else [])
          ≡ ok bytes
        → handle_connection (replicate n Event.tick) id conn
          ≡ Outcome.waiting
              (if state_eq conn.state State.play then add_i64 id n else id)
              (extend conn bytes)
    unfolding frames
    handle_connection_ticks n id conn bytes fits empty e =
        elim (Bool-cases (state_eq conn.state State.play)) [
          | inl on ↦ rw on (
              ticks_on n id conn bytes fits (state_eq→eq conn.state State.play on) empty
                (rw on at e))
          | inr off ↦
              let none_sent : frames conn.compression_threshold [] ≡ ok bytes = rw off at e in
              rw off (
                ticks_off n id conn off empty
                ∙ waiting-eq conn id id conn.stream (conn.stream ++ bytes) refl (
                    sym (append-nil conn.stream)
                    ∙ ap (λ (l : Bytes). conn.stream ++ l) (ok_inj none_sent)))
        ]
