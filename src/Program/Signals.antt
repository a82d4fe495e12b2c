-- ===== src/Program/Signals.antt =====
-- A signal ends the program: its loop is left, every connection is told, and `main` returns when all
-- of them have heard it.
use statik_rs.Prelude.{ℕ, ◌<◌, ◌≡◌, ap, ◌∙◌, Bool}
use statik_rs.Prelude.{Option, none, some, List, [], ◌∷◌, ◌++◌, length, if◌then◌else◌}
use statik_rs.Core.Result.{ok, Bytes}
use statik_rs.Program.{
  Program, Remaining, Signal, Happening, Phase, start, proceed, main_loop, wait, awaited, finish,
}
use statik_rs.Program.Tuned.{main_loop-IsTuned, main_loop-snoc, stop-stopped, started-IsTuned}
use statik_rs.Program.Waiting.{Asks, all_ended_lem, still-below, wait-HasEndedAt, main_hears}
use statik_rs.Server.Accept.{shutdown}
use statik_rs.Server.Api.{ApiRequest}
use statik_rs.Server.Channels.{Channels, IsBroadcast}
use statik_rs.Server.Config.{ServerConfig}

module _ ⦃c : Channels⦄ (laws : IsBroadcast c) (parse : List ℕ → Option ApiRequest) where
  open c use {Channel, Receiver, channel, recv, send}
  open laws use {Listens, recv-keeps, send-heard}

  -- The program has started and gone through any happenings without leaving its loop, and a signal
  -- comes: the loop is left without an error, and once every connection task that the server has
  -- then has asked its receiver, whatever else these tasks and those of management connections do
  -- (such as send another shutdown), `main` returns `Ok`.
  pub main_loop-finish :
      (bind : Bytes → ℕ → Bool) (read : Bytes → Option Bytes) (base64 : Bytes → Bytes)
      → (config : ServerConfig) (p q : Program Channel Receiver) (hs : List Happening)
      → (signal : Signal) (polls : List Remaining) → start bind read base64 config ≡ ok p
      → main_loop parse hs p ≡ Phase.running q
      → ((k : ℕ) → k < length q.server.tasks → Asks k polls)
      → (r : Program Channel Receiver) × (main_loop parse (hs ++ Happening.signalled signal ∷ []) p
          ≡ Phase.stopped r)
        × (finish (record r { server = wait parse polls r.server }) ≡ some (ok tt))
  unfolding finish
  main_loop-finish bind read base64 config p q hs signal polls e f asks =
      let tuned =
        main_loop-IsTuned laws parse hs p q (started-IsTuned laws parse bind read base64 config p e)
          f in
      let s = (shutdown none q.server).1 in
      let after = wait parse polls s in
      let ended = all_ended_lem laws parse after.tasks (λ k below.
        let known = still-below laws parse none q.server polls k below in
        wait-HasEndedAt laws parse none q.server polls k tuned.tasks_listen known (asks k known)) in
      (
        record q { server = s },
        main_loop-snoc laws parse hs (Happening.signalled signal) p q f
            ∙ ap (proceed Phase.running) (stop-stopped laws parse none q tuned),
        ap (λ (b : Bool). if b then awaited (recv q.shutdown_rx after.notify_shutdown).0 else none)
              ended
            ∙ main_hears laws parse none q polls tuned,
      )
