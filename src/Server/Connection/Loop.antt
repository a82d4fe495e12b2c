-- ===== src/Server/Connection/Loop.antt =====
-- crates/statik_server/src/connection.rs: `handle_connection`. The socket and the timer are the list
-- of what they bring: bytes, none at the end of the stream, or a tick.
pub mod Fuel
pub mod Reach
pub mod Trace
pub mod KeepAlive
pub mod Conversation
pub mod Turns
pub mod StatusSession
pub mod JoinSession
pub mod LoginSession
pub mod Refusal
pub mod RefusedSession
pub mod Skips
pub mod Chunks
use statik_rs.Prelude.{ℕ, zero, suc, ◌+◌, ◌^◌, Option, none, some, List, [], ◌∷◌, ◌++◌, length}
use statik_rs.Prelude.{if◌then◌else◌}
use statik_rs.Prelude.Int.{ℤ, pos, as_signed, as_unsigned}
use statik_rs.Core.Crates.{Crates}
use statik_rs.Core.Result.{Error, Result, ok, err, Bytes, unexpected_eof}
use statik_rs.Core.State.{State, state_eq}
use statik_rs.Proto.V1_20_1.S2c as S2c20
use statik_rs.Proto.V1_21_1.S2c as S2c21
use statik_rs.Server.Connection.{Connection, Zlib, Assets}
use statik_rs.Server.Connection.Frame.{write_packet, try_parse_packet}
use statik_rs.Server.Connection.Handlers.{Handler, dispatch_packet}
use statik_rs.Server.Protocol.{ProtocolKind, DecodedC2s}

pub data Event : Type 0 where
  read : Bytes → Event
  tick : Event

-- Where the loop stands after some events: it waits for the next one, or it has returned an error.
pub data Outcome : Type 0 where
  waiting : ℤ → Connection → Outcome
  ended : Error → Connection → Outcome
  out_of_fuel : Outcome

-- `next_keepalive_id.wrapping_add(1)`.
abbrev pub wrapping_next : ℤ → ℤ
wrapping_next id = as_signed (2 ^ 64) (as_unsigned (2 ^ 64) id + 1)

module _ ⦃c : Crates⦄ ⦃z : Zlib⦄ where
  abbrev pub write_keep_alive : ProtocolKind → ℤ → Handler
  write_keep_alive ProtocolKind.v1_20_1 id = write_packet S2c20.Play.s2c_keep_alive (id, tt)
  write_keep_alive ProtocolKind.v1_21_1 id = write_packet S2c21.Play.s2c_keep_alive (id, tt)

  abbrev pub written_id : ℤ → Result (Unit {0}) × Connection → Result ℤ × Connection
  written_id id (ok done, conn) = (ok (wrapping_next id), conn)
  written_id id (err e, conn) = (err e, conn)

  -- The `select!`; the timer's branch is off outside Play.
  unfoldable pub select : Event → ℤ → Connection → Result ℤ × Connection
  select (Event.read []) id conn = (err unexpected_eof, conn)
  select (Event.read (b ∷ bytes)) id conn =
      (ok id, record conn { buffer = conn.buffer ++ b ∷ bytes })
  select Event.tick id conn =
      if state_eq conn.state State.play
      then written_id id (write_keep_alive conn.protocol id conn)
      else (ok id, conn)

  module _ ⦃a : Assets⦄ where
    -- What follows a dispatched packet, and a parsed one.
    abbrev pub dispatched :
        (Connection → Option (Result (Unit {0}) × Connection))
        → Result (Unit {0}) × Connection
        → Option (Result (Unit {0}) × Connection)
    dispatched again (ok done, conn) = again conn
    dispatched again (err e, conn) = some (err e, conn)

    abbrev pub parsed :
        (Connection → Option (Result (Unit {0}) × Connection))
        → Result (Option DecodedC2s) × Connection
        → Option (Result (Unit {0}) × Connection)
    parsed again (ok none, conn) = some (ok tt, conn)
    parsed again (ok (some packet), conn) = dispatched again (dispatch_packet packet conn)
    parsed again (err e, conn) = some (err e, conn)

    -- `while let Some(packet) = self.try_parse_packet()? { … }` on fuel.
    unfoldable pub drain : ℕ → Connection → Option (Result (Unit {0}) × Connection)
    drain zero conn = none
    drain (suc fuel) conn = parsed (drain fuel) (try_parse_packet conn)

    abbrev pub drain_all : Connection → Option (Result (Unit {0}) × Connection)
    drain_all conn = drain (suc (length conn.buffer)) conn

    abbrev pub selected : (ℤ → Connection → Outcome) → Result ℤ × Connection → Outcome
    selected again (ok id, conn) = again id conn
    selected again (err e, conn) = Outcome.ended e conn

    -- One round of the loop, after the drain.
    abbrev pub after_drain :
        (ℤ → Connection → Outcome) → Option (Result (Unit {0}) × Connection) → ℤ → Outcome
    after_drain next none id = Outcome.out_of_fuel
    after_drain next (some (ok done, conn)) id = next id conn
    after_drain next (some (err e, conn)) id = Outcome.ended e conn

    unfoldable pub handle_connection : List Event → ℤ → Connection → Outcome
    unfolding drain
    handle_connection [] id conn = after_drain Outcome.waiting (drain_all conn) id
    handle_connection (event ∷ events) id conn =
        after_drain (λ id' conn'. selected (handle_connection events) (select event id' conn'))
          (drain_all conn) id
