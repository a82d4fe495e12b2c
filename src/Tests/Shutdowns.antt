-- ===== src/Tests/Shutdowns.antt =====
-- The shutdown of the whole server on examples, with a channel that keeps the newest message.
use statik_rs.Prelude.{ℕ, zero, suc, ◌-◌, ◌≤◌, ◌<◌, ◌≡◌, refl, arith, Bool, true, inl, inr}
use statik_rs.Prelude.{
  Option, none, some, List, [], ◌∷◌, ◌++◌, length, get_elem?, ◌==◌, if◌then◌else◌, Bool-cases,
}
use statik_rs.Core.Result.{ok, Bytes}
use statik_rs.Program.{Program, Signal, Happening, Remaining, Phase, start, main_loop, wait, finish}
use statik_rs.Program.Signals.{main_loop-finish}
use statik_rs.Program.Waiting.{Asks}
use statik_rs.Server.Accept.{Task, Server, Poll, Occurrence, new_task, serve}
use statik_rs.Server.Accept.Graceful.{HasEndedAt, api_shutdown-HasEndedAt}
use statik_rs.Server.Api.{ApiRequest, ReadLine}
use statik_rs.Server.Api.Token.{HasToken}
use statik_rs.Server.Channels.{Channels, IsBroadcast, IsNews}
use statik_rs.Server.Config.{ServerConfig, default_config}
use statik_rs.Server.Protocol.{ProtocolKind}
use statik_rs.Server.Shutdown.{Broadcast}
use statik_rs.Server.Text.{text, chars}

-- The messages, the newest first; a receiver is the number of those that it has seen.
abbrev next_news : ℕ → List Bytes → Option Broadcast × ℕ
next_news seen [] = (none, seen)
next_news seen (m ∷ older) =
    if seen == suc (length older)
    then (none, seen)
    else if seen == length older
    then (some (Broadcast.value m), suc (length older))
    else (some (Broadcast.lagged (length older - seen)), length older)

abbrev channels : Channels
channels = record {
  Channel = List Bytes;
  Receiver = ℕ;
  channel = (0, []);
  subscribe = λ ch. (length ch, ch);
  send = λ m ch. (true, m ∷ ch);
  recv = λ r ch. next_news r ch;
}

next_news-keeps : (r : ℕ) (ch : List Bytes) → r ≤ length ch → (next_news r ch).1 ≤ length ch
next_news-keeps r [] h = h
next_news-keeps r (m ∷ older) h = ground arith

next_news-IsNews :
    (r : ℕ) (ch : List Bytes)
    → r < length ch
    → (b : Broadcast) × ((next_news r ch).0 ≡ some b) × IsNews b
next_news-IsNews r [] h = absurd (omega arith)
next_news-IsNews r (m ∷ older) h = elim (Bool-cases (r == suc (length older))) [
  | inl same ↦ absurd (ground arith)
  | inr other ↦ elim (Bool-cases (r == length older)) [
    | inl last ↦ (Broadcast.value m, rw (other, last) refl, IsNews.value m)
    | inr missed ↦ (
      Broadcast.lagged (length older - r),
      rw (other, missed) refl,
      IsNews.lagged (length older - r),
    )
  ]
]

channels-IsBroadcast : IsBroadcast channels
channels-IsBroadcast = record {
  Listens = λ r ch. r ≤ length ch;
  Waits = λ r ch. r < length ch;
  channel-Listens = omega arith;
  subscribe-Listens = λ ch. omega arith;
  subscribe-keeps = λ r ch h. h;
  subscribe-Waits = λ r ch h. h;
  send-keeps = λ r ch m h. omega arith;
  send-Waits = λ r ch m h. omega arith;
  send-still = λ r ch m h. omega arith;
  send-heard = λ r ch m h. refl;
  recv-keeps = next_news-keeps;
  recv-IsNews = next_news-IsNews;
}

-- A server with a token and one client.
abbrev guarded : ServerConfig
guarded = record default_config { api = record { port = 8080; token = some (text "secret") } }

abbrev shutdown_request : ApiRequest
shutdown_request = record { action = text "shutdown"; token = some (text "secret"); reason = none }

abbrev understood : List ℕ → Option ApiRequest
understood bytes = some shutdown_request

abbrev idle : Server (List Bytes) ℕ
idle = record {
  config = guarded;
  protocol = ProtocolKind.v1_20_1;
  notify_shutdown = [];
  tasks = [];
}

abbrev client : Task ℕ
client = new_task ⦃c = channels⦄ guarded ProtocolKind.v1_20_1 0

one_client :
    get_elem? (serve ⦃c = channels⦄ understood (Occurrence.mc_accepted ∷ []) idle).tasks 0
    ≡ some client
unfolding serve
one_client = refl

token_known :
    HasToken
      (serve ⦃c = channels⦄ understood (Occurrence.mc_accepted ∷ []) idle).config
      shutdown_request
unfolding serve
token_known = (text "secret", refl, refl)

api_shutdown-HasEndedAt_example : HasEndedAt ⦃c = channels⦄ channels-IsBroadcast understood 0 (
    serve ⦃c = channels⦄ understood
      (Occurrence.api_accepted (ReadLine.line []) ∷ [] ++ Occurrence.polled 0 Poll.notified ∷ [])
      (serve ⦃c = channels⦄ understood (Occurrence.mc_accepted ∷ []) idle))
api_shutdown-HasEndedAt_example =
    api_shutdown-HasEndedAt ⦃c = channels⦄ channels-IsBroadcast understood idle
      (Occurrence.mc_accepted ∷ []) [] [] [] shutdown_request 0 client refl refl refl token_known
      one_client

-- The program with its default configuration, one client, and SIGTERM.
abbrev any_port : Bytes → ℕ → Bool
any_port host port = true

abbrev no_file : Bytes → Option Bytes
no_file path = none

abbrev as_it_is : Bytes → Bytes
as_it_is file = file

abbrev begun : Program (List Bytes) ℕ
begun = record {
  server = record {
    config = default_config;
    protocol = ProtocolKind.v1_20_1;
    notify_shutdown = [];
    tasks = [];
  };
  shutdown_rx = 0;
}

begins : start ⦃c = channels⦄ any_port no_file as_it_is default_config ≡ ok begun
unfolding start chars
begins = refl

abbrev visited : Program (List Bytes) ℕ
visited = record begun {
  server = record begun.server {
    tasks = new_task ⦃c = channels⦄ default_config ProtocolKind.v1_20_1 0 ∷ [];
  };
}

visits :
    main_loop ⦃c = channels⦄ understood (Happening.occurred Occurrence.mc_accepted ∷ []) begun
    ≡ Phase.running visited
unfolding main_loop
visits = refl

Asks-all :
    (k : ℕ) → k < length visited.server.tasks → Asks k (Remaining.polled 0 Poll.notified ∷ [])
Asks-all zero h = ([], [], refl)
Asks-all (suc k) h = absurd (omega arith)

main_loop-finish_example :
    (r : Program (List Bytes) ℕ) × (main_loop ⦃c = channels⦄ understood
        ((Happening.occurred Occurrence.mc_accepted ∷ [])
          ++ Happening.signalled Signal.sigterm ∷ [])
        begun
      ≡ Phase.stopped r)
    × (finish ⦃c = channels⦄ (record r {
      server = wait ⦃c = channels⦄ understood (Remaining.polled 0 Poll.notified ∷ []) r.server;
    })
        ≡ some (ok tt))
main_loop-finish_example =
    main_loop-finish ⦃c = channels⦄ channels-IsBroadcast understood any_port no_file as_it_is
      default_config begun visited (Happening.occurred Occurrence.mc_accepted ∷ []) Signal.sigterm
      (Remaining.polled 0 Poll.notified ∷ []) begins visits Asks-all
