-- ===== src/Program/Waiting.antt =====
-- src/main.rs after the loop: the connections are waited for.
use mathlib.Core.List.{map, map-append}
use mathlib.Core.Path.{subst}
use statik_rs.Prelude.{ℕ, zero, suc, ◌<◌, ◌≡◌, refl, sym, ap, ◌∙◌, true, false}
use statik_rs.Prelude.{Option, none, some, List, [], ◌∷◌, ◌++◌, get_elem?, length, arith}
use statik_rs.Core.Result.{Result, ok, Bytes}
use statik_rs.Program.{Program, Remaining, remains, told, wait, is_ended, all_ended, awaited}
use statik_rs.Program.Tuned.{IsTuned}
use statik_rs.Server.Accept.{Task, Server, Poll, Occurrence, poll_at, occur, serve, shutdown}
use statik_rs.Server.Accept.Graceful.{AllListening, HasEndedAt, sent-IsEndingAt, serve-polled}
use statik_rs.Server.Accept.Tasks.{IsAt, Ended, some_inj}
use statik_rs.Server.Api.{ApiRequest, reason_or}
use statik_rs.Server.Api.Effect.{handle-keeps}
use statik_rs.Server.Channels.{Channels, IsBroadcast}

-- Among all that goes on the k-th connection task asks the channel.
abbrev pub Asks : ℕ → List Remaining → Type 0
Asks k polls =
    (before : List Remaining) × (after : List Remaining) × (polls
      ≡ before ++ Remaining.polled k Poll.notified ∷ after)

module _ ⦃c : Channels⦄ (laws : IsBroadcast c) (parse : List ℕ → Option ApiRequest) where
  open c use {Channel, Receiver, channel, recv, send}
  open laws use {Waits}

  wait-serve :
      (polls : List Remaining) (s : Server Channel Receiver)
      → wait parse polls s ≡ serve parse (map (remains parse) polls) s
  unfolding wait serve
  wait-serve [] s = refl
  wait-serve (r ∷ polls) s = wait-serve polls (occur parse (remains parse r) s)

  length-poll_at :
      (i : ℕ) (p : Poll) (ch : Channel) (ts : List (Task Receiver))
      → length (poll_at i p ch ts) ≡ length ts
  unfolding poll_at
  length-poll_at i p ch [] = refl
  length-poll_at zero p ch (t ∷ ts) = refl
  length-poll_at (suc i) p ch (t ∷ ts) = ap (λ (n : ℕ). suc n) (length-poll_at i p ch ts)

  length-wait :
      (polls : List Remaining) (s : Server Channel Receiver)
      → length (wait parse polls s).tasks ≡ length s.tasks
  unfolding wait occur
  length-wait [] s = refl
  length-wait (Remaining.requested request ∷ polls) s =
      length-wait polls (occur parse (Occurrence.api_accepted request) s)
  length-wait (Remaining.polled k poll ∷ polls) s =
      length-wait polls (record s { tasks = poll_at k poll s.notify_shutdown s.tasks })
      ∙ length-poll_at k poll s.notify_shutdown s.tasks

  pub all_ended_lem :
      (ts : List (Task Receiver))
      → ((k : ℕ) → k < length ts → IsAt laws (Ended laws) k ts)
      → all_ended ts ≡ true
  unfolding all_ended
  all_ended_lem [] h = refl
  all_ended_lem (t ∷ ts) h =
      let (u, at, ended) = h 0 (omega arith) in
      let (r, e) = subst (Ended laws) (sym (some_inj at)) ended in
      let first : is_ended t ≡ true =
        ap (λ (o : Option (Result (Unit {0}))). elim o [ none ↦ false | some x ↦ true ]) e in
      rw first (all_ended_lem ts (λ k below. h (suc k) (omega arith)))

  get-below :
      {A : Type 0} (xs : List A) (k : ℕ) → k < length xs → (a : A) × (get_elem? xs k ≡ some a)
  get-below [] k h = absurd (omega arith)
  get-below (x ∷ xs) zero h = (x, refl)
  get-below (x ∷ xs) (suc k) h = get-below xs k (omega arith)

  pub still-below :
      (reason : Option Bytes) (s : Server Channel Receiver) (polls : List Remaining) (k : ℕ)
      → k < length (wait parse polls (shutdown reason s).1).tasks
      → k < length s.tasks
  unfolding shutdown
  still-below reason s polls k h =
      subst (λ (n : ℕ). k < n) (length-wait polls (shutdown reason s).1) h

  pub wait-HasEndedAt :
      (reason : Option Bytes) (s : Server Channel Receiver) (polls : List Remaining) (k : ℕ)
      → AllListening laws parse s
      → k < length s.tasks
      → Asks k polls
      → HasEndedAt laws parse k (wait parse polls (shutdown reason s).1)
  unfolding shutdown
  wait-HasEndedAt reason s polls k listening below (before, after, split) =
      let (t, at) = get-below s.tasks k below in
      let ending =
        sent-IsEndingAt laws parse k t s (reason_or s.config.mc.disconnect_msg reason) _ listening
          at refl in
      let spread =
        ap (map (remains parse)) split
        ∙ map-append (remains parse) before (Remaining.polled k Poll.notified ∷ after) in
      subst (HasEndedAt laws parse k)
        (sym (
          wait-serve polls (shutdown reason s).1
          ∙ ap (λ (os : List Occurrence). serve parse os (shutdown reason s).1) spread))
        (serve-polled laws parse (map (remains parse) before) (map (remains parse) after) k
          (shutdown reason s).1 ending)

  -- What waits for a receiver of `main` goes on waiting, whatever else is sent.
  wait-Waits :
      (r : Receiver) (polls : List Remaining) (s : Server Channel Receiver)
      → Waits r s.notify_shutdown
      → Waits r (wait parse polls s).notify_shutdown
  unfolding wait occur
  wait-Waits r [] s h = h
  wait-Waits r (Remaining.polled k poll ∷ polls) s h =
      wait-Waits r polls (occur parse (Occurrence.polled k poll) s) h
  wait-Waits r (Remaining.requested request ∷ polls) s h =
      wait-Waits r polls (occur parse (Occurrence.api_accepted request) s) (
        handle-keeps send (Waits r) s.notify_shutdown h
          (λ m. laws.send-still r s.notify_shutdown m h) parse request s.config)

  -- What `main` has sent waits for its own receiver too.
  pub main_hears :
      (reason : Option Bytes) (p : Program Channel Receiver) (polls : List Remaining)
      → IsTuned laws parse p
      → awaited
          (recv p.shutdown_rx (wait parse polls (shutdown reason p.server).1).notify_shutdown).0
        ≡ some (ok tt)
  unfolding shutdown
  main_hears reason p polls tuned =
      let s = (shutdown reason p.server).1 in
      let waits =
        laws.send-Waits p.shutdown_rx p.server.notify_shutdown
          (reason_or p.server.config.mc.disconnect_msg reason) tuned.main_listens in
      let (b, told, news) =
        laws.recv-IsNews p.shutdown_rx (wait parse polls s).notify_shutdown
          (wait-Waits p.shutdown_rx polls s waits) in
      ap awaited told
