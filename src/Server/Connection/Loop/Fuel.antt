-- ===== src/Server/Connection/Loop/Fuel.antt =====
-- The inner loop of `handle_connection` ends: the fuel that it is given is enough.
use statik_rs.Prelude.{
  ℕ, zero, suc, ◌<◌, ◌≡◌, refl, sym, ap, ◌∙◌, Option, none, some, List, [], ◌∷◌,
}
use statik_rs.Prelude.{length, arith, ◌≢◌}
use statik_rs.Prelude.Int.{ℤ}
use statik_rs.Core.Crates.{Crates}
use statik_rs.Core.Result.{Result, ok, err, Bytes}
use statik_rs.Server.Connection.{Connection, Zlib, Assets}
use statik_rs.Server.Connection.Frame.{try_parse_packet}
use statik_rs.Server.Connection.Frame.Soundness.{try_parse_packet-Found, try_parse_packet_shrinks}
use statik_rs.Server.Connection.Handlers.{dispatch_packet}
use statik_rs.Server.Connection.Handlers.Moves.{Handled, dispatch_packet-Handled}
use statik_rs.Server.Connection.Loop.{
  Event, Outcome, select, dispatched, parsed, drain, drain_all, selected, after_drain,
  handle_connection,
}
use statik_rs.Server.Protocol.{DecodedC2s, decode_c2s-kind}

module _ ⦃c : Crates⦄ ⦃z : Zlib⦄ ⦃a : Assets⦄ where
  abbrev Ends : Option (Result (Unit {0}) × Connection) → Type 0
  Ends r = (out : Result (Unit {0}) × Connection) × (r ≡ some out)

  dispatched-Ends :
      (again : Connection → Option (Result (Unit {0}) × Connection))
      → (r : Result (Unit {0}) × Connection) → Ends (again r.1)
      → Ends (dispatched again r)
  dispatched-Ends again (ok done, conn) h = h
  dispatched-Ends again (err e, conn) h = ((err e, conn), refl)

  -- A packet that was parsed is handled by the handlers of its version.
  pub parsed-Handled :
      (conn conn' : Connection) (packet : DecodedC2s)
      → try_parse_packet conn ≡ (ok (some packet), conn')
      → Handled conn' (dispatch_packet packet conn').1
  parsed-Handled conn conn' packet h =
      let (header, framed, payload, split, read, low, high, small, unpacked, decoded, left) =
        try_parse_packet-Found conn conn' packet h in
      dispatch_packet-Handled packet conn' (
        decode_c2s-kind conn.protocol conn.state payload packet decoded
        ∙ sym (ap (λ (k : Connection). k.protocol) left))

  parsed-Ends :
      (fuel : ℕ) (conn : Connection) (r : Result (Option DecodedC2s) × Connection)
      → ((conn' : Connection) → length conn'.buffer < fuel → Ends (drain fuel conn'))
      → length conn.buffer < suc fuel
      → try_parse_packet conn ≡ r
      → Ends (parsed (drain fuel) r)
  parsed-Ends fuel conn (ok none, conn') ends h e = ((ok tt, conn'), refl)
  parsed-Ends fuel conn (err x, conn') ends h e = ((err x, conn'), refl)
  parsed-Ends fuel conn (ok (some packet), conn') ends h e =
      let after = (dispatch_packet packet conn').1 in
      dispatched-Ends (drain fuel) (dispatch_packet packet conn') (
        ends after (
          omega (
            arith,
            try_parse_packet_shrinks conn conn' packet e,
            ap (λ (b : Bytes). length b) (parsed-Handled conn conn' packet e).same_buffer,
          )))

  -- With more fuel than the buffer has bytes, the loop that drains the buffer ends with a result
  -- or an error.
  pub drain_lem :
      (fuel : ℕ) (conn : Connection)
      → length conn.buffer < fuel
      → (out : Result (Unit {0}) × Connection) × (drain fuel conn ≡ some out)
  unfolding drain
  drain_lem zero conn h = absurd (no_fuel conn h)
    where
      no_fuel : (k : Connection) → ¬ (length k.buffer < 0)
      no_fuel k h = omega arith
  drain_lem (suc fuel) conn h =
      parsed-Ends fuel conn (try_parse_packet conn) (drain_lem fuel) h refl

  IsRunning : Outcome → Type 0
  IsRunning outcome = outcome ≢ Outcome.out_of_fuel

  after_drain-IsRunning :
      (next : ℤ → Connection → Outcome) (r : Option (Result (Unit {0}) × Connection)) (id : ℤ)
      → Ends r
      → ((id' : ℤ) (conn : Connection) → IsRunning (next id' conn))
      → IsRunning (after_drain next r id)
  unfolding IsRunning
  after_drain-IsRunning next none id (out, e) h bad = cc
  after_drain-IsRunning next (some (ok done, conn)) id ends h bad = h id conn bad
  after_drain-IsRunning next (some (err e, conn)) id ends h bad = cc

  selected-IsRunning :
      (next : ℤ → Connection → Outcome) (r : Result ℤ × Connection)
      → ((id : ℤ) (conn : Connection) → IsRunning (next id conn))
      → IsRunning (selected next r)
  unfolding IsRunning
  selected-IsRunning next (ok id, conn) h bad = h id conn bad
  selected-IsRunning next (err e, conn) h bad = cc

  -- For any list of events `handle_connection` waits or gives up with an error; it never runs
  -- out of fuel.
  pub handle_connection_lem :
      (events : List Event) (id : ℤ) (conn : Connection)
      → handle_connection events id conn ≢ Outcome.out_of_fuel
  unfolding handle_connection IsRunning
  handle_connection_lem [] id conn =
      after_drain-IsRunning Outcome.waiting (drain_all conn) id
        (drain_lem (suc (length conn.buffer)) conn (omega arith)) (λ id' conn' bad. waiting_ne bad)
    where
      waiting_ne : {i : ℤ} {k : Connection} → Outcome.waiting i k ≢ Outcome.out_of_fuel
      waiting_ne h = cc
  handle_connection_lem (event ∷ events) id conn =
      after_drain-IsRunning _ (drain_all conn) id
        (drain_lem (suc (length conn.buffer)) conn (omega arith))
        (λ id' conn'.
          selected-IsRunning (handle_connection events) (select event id' conn')
            (handle_connection_lem events))
