-- ===== src/Server/Connection/Loop/Trace.antt =====
-- `handle_connection` runs by the steps of `Reach`, and these never lead a client back.
use mathlib.Core.Path.{subst}
use statik_rs.Prelude.{ℕ, zero, suc, ◌≤◌, ◌≡◌, refl, ap, arith, length}
use statik_rs.Prelude.{Option, none, some, List, [], ◌∷◌, ◌++◌, Bool-cases, inl, inr}
use statik_rs.Prelude.Int.{ℤ}
use statik_rs.Core.Crates.{Crates}
use statik_rs.Core.Result.{Result, ok, err}
use statik_rs.Core.State.{State, state_eq}
use statik_rs.Derive.Group.{state_eq→eq}
use statik_rs.Server.Connection.{Connection, Zlib, Assets}
use statik_rs.Server.Connection.Frame.{try_parse_packet}
use statik_rs.Server.Connection.Handlers.{dispatch_packet}
use statik_rs.Server.Connection.Handlers.Moves.{Move}
use statik_rs.Server.Connection.Loop.{
  Event, Outcome, write_keep_alive, written_id, select, dispatched, parsed, drain, drain_all,
  selected, after_drain, handle_connection,
}
use statik_rs.Server.Connection.Loop.Fuel.{parsed-Handled}
use statik_rs.Server.Connection.Loop.Reach.{
  Step, Steps, Steers, parse-Steers, handled-Steers, still-Steers, written-Steers,
  keep_alive-Writes,
}
use statik_rs.Server.Protocol.{ProtocolKind, DecodedC2s}

-- How far a client has come.
abbrev pub stage : State → ℕ
stage State.handshake = 0
stage State.status = 1
stage State.login = 1
stage State.configuration = 2
stage State.play = 3

pub Move-stage : (k : ProtocolKind) (s t : State) → Move k s t → stage s ≤ stage t
Move-stage k s t (Move.stay _ _) = omega arith
Move-stage k s t (Move.ask_status _) = omega arith
Move-stage k s t (Move.ask_login _) = omega arith
Move-stage k s t Move.enter_play = omega arith
Move-stage k s t Move.acknowledge = omega arith
Move-stage k s t Move.finish = omega arith

module _ ⦃c : Crates⦄ ⦃z : Zlib⦄ ⦃a : Assets⦄ where
  Steers-stage : (s t : Connection) → Steers s t → stage s.state ≤ stage t.state
  Steers-stage s t h = Move-stage s.protocol s.state t.state h.move

  Step-stage : (s t : Connection) → Step s t → stage s.state ≤ stage t.state
  Step-stage s t (Step.parse _) = Steers-stage s _ (parse-Steers s)
  Step-stage s t (Step.dispatch _ mid packet e) =
      let first =
        subst (λ (k : Connection). stage s.state ≤ stage k.state) (ap (λ p. p.1) e)
          (Steers-stage s _ (parse-Steers s)) in
      let second = Steers-stage mid _ (handled-Steers mid _ (parsed-Handled s mid packet e)) in
      omega (arith, first, second)
  Step-stage s t (Step.receive _ bytes) =
      Steers-stage s _ (still-Steers s s.stream (s.buffer ++ bytes))
  Step-stage s t (Step.keep_alive _ id at) =
      Steers-stage s _ (written-Steers s _ (keep_alive-Writes s.protocol id s))

  -- No run leads a client back to an earlier stage of the protocol: Handshake comes before Status
  -- and Login, these before Configuration, and that before Play, from which nothing leads away.
  pub Steps-stage : (s t : Connection) → Steps s t → stage s.state ≤ stage t.state
  Steps-stage s t (Steps.stop _) = omega arith
  Steps-stage s t (Steps.next _ mid _ before step) =
      omega (arith, Steps-stage s mid before, Step-stage mid t step)

  Steps-trans : {s t u : Connection} → Steps s t → Steps t u → Steps s u
  Steps-trans before (Steps.stop _) = before
  Steps-trans before (Steps.next t mid u after step) =
      Steps.next _ mid u (Steps-trans before after) step

  one : {s t : Connection} → Step s t → Steps s t
  one {s} {t} step = Steps.next s s t (Steps.stop s) step

  -- The connection that something leaves behind is reached from `conn`.
  abbrev LeavesDrain : Connection → Option (Result (Unit {0}) × Connection) → Type 0
  LeavesDrain conn none = Unit {0}
  LeavesDrain conn (some (r, conn')) = Steps conn conn'

  abbrev pub Leaves : Connection → Outcome → Type 0
  Leaves conn (Outcome.waiting id conn') = Steps conn conn'
  Leaves conn (Outcome.ended e conn') = Steps conn conn'
  Leaves conn Outcome.out_of_fuel = Unit {0}

  dispatched-Leaves :
      (s conn : Connection) (again : Connection → Option (Result (Unit {0}) × Connection))
      → (r : Result (Unit {0}) × Connection) → Steps s r.1
      → ((conn' : Connection) → Steps s conn' → LeavesDrain s (again conn'))
      → LeavesDrain s (dispatched again r)
  dispatched-Leaves s conn again (ok done, conn') h more = more conn' h
  dispatched-Leaves s conn again (err e, conn') h more = h

  parsed-Leaves :
      (s conn : Connection) (again : Connection → Option (Result (Unit {0}) × Connection))
      → (r : Result (Option DecodedC2s) × Connection) → try_parse_packet conn ≡ r
      → Steps s conn
      → ((conn' : Connection) → Steps s conn' → LeavesDrain s (again conn'))
      → LeavesDrain s (parsed again r)
  parsed-Leaves s conn again (ok none, conn') e h more =
      Steps.next s conn conn' h (subst (Step conn) (ap (λ p. p.1) e) (Step.parse conn))
  parsed-Leaves s conn again (err x, conn') e h more =
      Steps.next s conn conn' h (subst (Step conn) (ap (λ p. p.1) e) (Step.parse conn))
  parsed-Leaves s conn again (ok (some packet), conn') e h more =
      dispatched-Leaves s conn again (dispatch_packet packet conn')
        (Steps.next s conn _ h (Step.dispatch conn conn' packet e)) more

  drain-Leaves :
      (s : Connection) (fuel : ℕ) (conn : Connection)
      → Steps s conn
      → LeavesDrain s (drain fuel conn)
  unfolding drain
  drain-Leaves s zero conn h = tt
  drain-Leaves s (suc fuel) conn h =
      parsed-Leaves s conn (drain fuel) (try_parse_packet conn) refl h (drain-Leaves s fuel)

  keep_alive-Steps :
      (s conn : Connection) (id : ℤ) (r : Result (Unit {0}) × Connection)
      → Steps s r.1
      → Steps s (written_id id r).1
  keep_alive-Steps s conn id (ok done, conn') h = h
  keep_alive-Steps s conn id (err e, conn') h = h

  select-Steps :
      (s : Connection) (event : Event) (id : ℤ) (conn : Connection)
      → Steps s conn
      → Steps s (select event id conn).1
  unfolding select
  select-Steps s (Event.read []) id conn h = h
  select-Steps s (Event.read (b ∷ bytes)) id conn h =
      Steps.next s conn _ h (Step.receive conn (b ∷ bytes))
  select-Steps s Event.tick id conn h = elim (Bool-cases (state_eq conn.state State.play)) [
    | inl playing ↦ rw playing (
        keep_alive-Steps s conn id (write_keep_alive conn.protocol id conn) (
          Steps.next s conn _ h
            (Step.keep_alive conn id (state_eq→eq conn.state State.play playing))))
    | inr other ↦ rw other h
  ]

  selected-Leaves :
      (s : Connection) (next : ℤ → Connection → Outcome) (r : Result ℤ × Connection)
      → Steps s r.1
      → ((id : ℤ) (conn : Connection) → Steps s conn → Leaves s (next id conn))
      → Leaves s (selected next r)
  selected-Leaves s next (ok id, conn) h more = more id conn h
  selected-Leaves s next (err e, conn) h more = h

  after_drain-Leaves :
      (s : Connection) (next : ℤ → Connection → Outcome)
      → (r : Option (Result (Unit {0}) × Connection)) (id : ℤ) → LeavesDrain s r
      → ((id' : ℤ) (conn : Connection) → Steps s conn → Leaves s (next id' conn))
      → Leaves s (after_drain next r id)
  after_drain-Leaves s next none id h more = tt
  after_drain-Leaves s next (some (ok done, conn)) id h more = more id conn h
  after_drain-Leaves s next (some (err e, conn)) id h more = h

  handle_connection-from :
      (s : Connection) (events : List Event) (id : ℤ) (conn : Connection)
      → Steps s conn
      → Leaves s (handle_connection events id conn)
  unfolding handle_connection
  handle_connection-from s [] id conn h =
      after_drain-Leaves s Outcome.waiting (drain_all conn) id
        (drain-Leaves s (suc (length conn.buffer)) conn h) (λ id' conn' h'. h')
  handle_connection-from s (event ∷ events) id conn h =
      after_drain-Leaves s
        (λ id' conn'. selected (handle_connection events) (select event id' conn')) (drain_all conn)
        id (drain-Leaves s (suc (length conn.buffer)) conn h)
        (λ id' conn' h'.
          selected-Leaves s (handle_connection events) (select event id' conn')
            (select-Steps s event id' conn' h') (handle_connection-from s events))

  -- For any list of events, the connection that `handle_connection` waits with or gives up with
  -- is reached from the one it began with by steps: parsing, dispatching a parsed packet,
  -- receiving bytes, and a keep-alive in Play.
  pub handle_connection-Steps :
      (events : List Event) (id : ℤ) (conn : Connection)
      → Leaves conn (handle_connection events id conn)
  handle_connection-Steps events id conn =
      handle_connection-from conn events id conn (Steps.stop conn)
