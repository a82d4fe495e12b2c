-- ===== src/Server/Handler.antt =====
-- crates/statik_server/src/handler.rs: `Handler::run`. Each round of its loop is the branch of the
-- `select!` that is done first: `handle_connection` has returned, or the shutdown channel answers.
pub mod Turns
use statik_rs.Prelude.{◌≡◌, Bool, true, false, Option, none, some, List, [], ◌∷◌, if◌then◌else◌}
use statik_rs.Core.Result.{Error, Result, ok, err, connection_ended}
use statik_rs.Server.Connection.Frame.{is_eof}
use statik_rs.Server.Shutdown.{Broadcast, Shutdown, recv}

pub data Turn : Type 0 where
  returned : Result (Unit {0}) → Turn
  notice : Broadcast → Turn

-- What `run` makes of an error of the connection.
abbrev pub connection_result : Error → Result (Unit {0})
connection_result e = if is_eof e then ok tt else err connection_ended

-- `Handler::run` on the rounds so far; `none` where it is still running.
unfoldable pub run : List Turn → Shutdown → Option (Result (Unit {0}))
unfolding recv
run [] s = if s.is_shutdown then some (ok tt) else none
run (Turn.returned (ok done) ∷ turns) s =
    let more = run turns s in if s.is_shutdown then some (ok tt) else more
run (Turn.returned (err e) ∷ turns) s =
    if s.is_shutdown then some (ok tt) else some (connection_result e)
run (Turn.notice b ∷ turns) s =
    let more = run turns (recv b s).1 in if s.is_shutdown then some (ok tt) else more
