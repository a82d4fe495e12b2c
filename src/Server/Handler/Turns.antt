-- ===== src/Server/Handler/Turns.antt =====
-- When `Handler::run` returns, and with what.
use statik_rs.Prelude.{◌≡◌, ◌≢◌, ◌∙◌, refl, true, Option, none, some, List, [], ◌∷◌, ◌++◌, All}
use statik_rs.Core.Result.{Error, Result, ok, err, unexpected_eof, connection_ended}
use statik_rs.Server.Handler.{Turn, connection_result, run}
use statik_rs.Server.Shutdown.{Broadcast, new_shutdown, recv}

-- What a round decides: an `UnexpectedEof` is the clean end of a connection, every other error of it
-- is reported, and a signal, also a missed one, is the end; a connection that returns normally and a
-- channel that is closed decide nothing.
abbrev pub verdict : Turn → Option (Result (Unit {0}))
verdict (Turn.returned (ok done)) = none
verdict (Turn.returned (err unexpected_eof)) = some (ok tt)
verdict (Turn.returned (err _)) = some (err connection_ended)
verdict (Turn.notice (Broadcast.value reason)) = some (ok tt)
verdict (Turn.notice Broadcast.closed) = none
verdict (Turn.notice (Broadcast.lagged n)) = some (ok tt)

connection_result_lem : (e : Error) → some (connection_result e) ≡ verdict (Turn.returned (err e))
connection_result_lem unexpected_eof = refl
connection_result_lem _ = refl

-- An error decides something.
error_decides : (e : Error) → verdict (Turn.returned (err e)) ≢ none
error_decides e h = cc (connection_result_lem e ∙ h)

run_shut : (turns : List Turn) → run turns (record { is_shutdown = true }) ≡ some (ok tt)
unfolding run
run_shut [] = refl
run_shut (Turn.returned (ok done) ∷ turns) = refl
run_shut (Turn.returned (err e) ∷ turns) = refl
run_shut (Turn.notice b ∷ turns) = refl

-- `run`, begun before a shutdown, ends with the first round that decides anything and with what
-- that round decides: `Ok` at a shutdown signal, also a missed one, and where the connection
-- ends with `UnexpectedEof`, the error that it ended with an error where it ends with any other.
pub run_lem :
    (before after : List Turn) (t : Turn) (r : Result (Unit {0}))
    → All (λ u. verdict u ≡ none) before
    → verdict t ≡ some r
    → run (before ++ t ∷ after) new_shutdown ≡ some r
unfolding run recv
run_lem [] after (Turn.returned (ok done)) r h e = cc
run_lem [] after (Turn.returned (err x)) r h e = connection_result_lem x ∙ e
run_lem [] after (Turn.notice (Broadcast.value reason)) r h e = run_shut after ∙ e
run_lem [] after (Turn.notice Broadcast.closed) r h e = cc
run_lem [] after (Turn.notice (Broadcast.lagged n)) r h e = run_shut after ∙ e
run_lem (Turn.returned (ok done) ∷ before) after t r h e = run_lem before after t r h.1 e
run_lem (Turn.notice Broadcast.closed ∷ before) after t r h e = run_lem before after t r h.1 e
run_lem (Turn.returned (err x) ∷ before) after t r h e = absurd (error_decides x h.0)
run_lem (_ ∷ before) after t r h e = cc

-- As long as nothing is decided `run` goes on: a connection that returns normally and a channel
-- that is closed decide nothing, however often.
pub run-none :
    (turns : List Turn) → All (λ u. verdict u ≡ none) turns → run turns new_shutdown ≡ none
unfolding run recv
run-none [] h = refl
run-none (Turn.returned (ok done) ∷ turns) h = run-none turns h.1
run-none (Turn.notice Broadcast.closed ∷ turns) h = run-none turns h.1
run-none (Turn.returned (err x) ∷ turns) h = absurd (error_decides x h.0)
run-none (_ ∷ turns) h = cc

-- The converse: while `run` goes on, nothing has been decided.
pub undecided :
    (turns : List Turn) → run turns new_shutdown ≡ none → All (λ u. verdict u ≡ none) turns
unfolding run recv
undecided [] h = tt
undecided (Turn.returned (ok done) ∷ turns) h = (refl, undecided turns h)
undecided (Turn.returned (err e) ∷ turns) h = cc
undecided (Turn.notice (Broadcast.value reason) ∷ turns) h = cc (run_shut turns)
undecided (Turn.notice Broadcast.closed ∷ turns) h = (refl, undecided turns h)
undecided (Turn.notice (Broadcast.lagged n) ∷ turns) h = cc (run_shut turns)
