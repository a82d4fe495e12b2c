-- ===== src/Program.antt =====
-- src/main.rs: the program. The file system, the TOML parser, the parser of log levels and the
-- signals are parameters; what the `select!` of its loop takes is a list of happenings.
pub mod Start
pub mod Tuned
pub mod Waiting
pub mod Signals
use statik_rs.Prelude.{ℕ, Bool, true, false, Option, none, some, List, [], ◌∷◌, ◌&&◌, if◌then◌else◌}
use statik_rs.Core.Result.{Error, Result, ok, err, ◌>>=◌, Bytes, channel_failed}
use statik_rs.Server.Accept.{Task, Server, Poll, Occurrence, new_server, shutdown, occur}
use statik_rs.Server.Api.{ApiRequest, ReadLine}
use statik_rs.Server.Channels.{Channels}
use statik_rs.Server.Config.{ServerConfig, default_config}
use statik_rs.Server.Protocol.{ProtocolKind, from_str}
use statik_rs.Server.Handler.{run}
use statik_rs.Server.Shutdown.{Broadcast, new_shutdown}
use statik_rs.Server.Text.{text, text_eq, chars}

abbrev pub default_path : Bytes
default_path = text "statik.toml"

-- `cli.config.unwrap_or("statik.toml")`.
abbrev pub config_path : Option Bytes → Bytes
config_path none = default_path
config_path (some path) = path

abbrev pub parsed_config : Option ServerConfig → ServerConfig
parsed_config none = default_config
parsed_config (some config) = config

-- By what `read_to_string` and `toml::from_str` give: the configuration, and whether the defaults are
-- written to statik.toml.
abbrev pub read_config : (Bytes → Option ServerConfig) → Bytes → Option Bytes → ServerConfig × Bool
read_config parse_toml path none = (default_config, text_eq path default_path)
read_config parse_toml path (some content) = (parsed_config (parse_toml content), false)

unfoldable pub load_config :
    (Bytes → Option Bytes) → (Bytes → Option ServerConfig) → Option Bytes → ServerConfig × Bool
load_config read parse_toml path =
    read_config parse_toml (config_path path) (read (config_path path))

-- `parse::<tracing::Level>()`, with DEBUG where it fails.
abbrev pub log_level : {Level : Type 0} → (Bytes → Option Level) → Level → Bytes → Level
log_level parse_level debug name = elim (parse_level name) [ none ↦ debug | some level ↦ level ]

-- The state of `main` in its loop: the server, and the receiver that it keeps itself.
pub record Program (Channel Receiver : Type 0) : Type 0 where
  pub server : Server Channel Receiver
  pub shutdown_rx : Receiver

-- The signals of src/quit.rs.
pub data Signal : Type 0 where
  ctrl_c sigquit sigterm : Signal

-- A branch of the `select!`: the server goes on, a signal, or its own receiver is asked.
pub data Happening : Type 0 where
  occurred : Occurrence → Happening
  signalled : Signal → Happening
  received : Happening

-- What goes on after the loop: a connection task is polled, or the task of a management connection
-- that was accepted before, which has its own sender, reads its line.
pub data Remaining : Type 0 where
  polled : ℕ → Poll → Remaining
  requested : ReadLine → Remaining

-- `main` goes on, has left its loop, or has returned an error.
pub data Phase (Channel Receiver : Type 0) : Type 0 where
  running : Program Channel Receiver → Phase Channel Receiver
  stopped : Program Channel Receiver → Phase Channel Receiver
  failed : Error → Phase Channel Receiver

module _ ⦃c : Channels⦄ where
  open c use {Channel, Receiver, channel, recv}

  -- `main` up to its loop.
  unfoldable pub start :
      (Bytes → ℕ → Bool)
      → (Bytes → Option Bytes)
      → (Bytes → Bytes)
      → ServerConfig
      → Result (Program Channel Receiver)
  unfolding from_str new_server
  start bind read base64 config = do
    protocol ← from_str (chars config.mc.version)
    server ← new_server bind read base64 config protocol channel.1
    ok (record { server = server; shutdown_rx = channel.0 })

  abbrev pub after_shutdown :
      Program Channel Receiver
      → Result (Unit {0}) × Server Channel Receiver
      → Phase Channel Receiver
  after_shutdown p (ok done, server) = Phase.stopped (record p { server = server })
  after_shutdown p (err e, server) = Phase.failed e

  -- `server.shutdown(reason).await?; break`.
  abbrev pub stop : Option Bytes → Program Channel Receiver → Phase Channel Receiver
  stop reason p = after_shutdown p (shutdown reason p.server)

  -- The branch of `_shutdown_rx.recv()`, with its `reason?`.
  abbrev pub told : Program Channel Receiver → Option Broadcast × Receiver → Phase Channel Receiver
  told p (none, rx) = Phase.running (record p { shutdown_rx = rx })
  told p (some (Broadcast.value reason), rx) = stop (some reason) (record p { shutdown_rx = rx })
  told p (some Broadcast.closed, rx) = Phase.failed channel_failed
  told p (some (Broadcast.lagged n), rx) = Phase.failed channel_failed

  -- What follows a round of the loop.
  abbrev pub proceed :
      (Program Channel Receiver → Phase Channel Receiver)
      → Phase Channel Receiver
      → Phase Channel Receiver
  proceed next (Phase.running p) = next p
  proceed next (Phase.stopped p) = Phase.stopped p
  proceed next (Phase.failed e) = Phase.failed e

  module _ (parse : List ℕ → Option ApiRequest) where
    abbrev pub happen : Happening → Program Channel Receiver → Phase Channel Receiver
    happen (Happening.occurred o) p = Phase.running (record p { server = occur parse o p.server })
    happen (Happening.signalled signal) p = stop none p
    happen Happening.received p = told p (recv p.shutdown_rx p.server.notify_shutdown)

    -- The loop of `main`.
    unfoldable pub main_loop : List Happening → Program Channel Receiver → Phase Channel Receiver
    unfolding shutdown occur
    main_loop [] p = Phase.running p
    main_loop (h ∷ hs) p = proceed (main_loop hs) (happen h p)

    abbrev pub remains : Remaining → Occurrence
    remains (Remaining.polled k poll) = Occurrence.polled k poll
    remains (Remaining.requested request) = Occurrence.api_accepted request

    -- After the loop `server.run()` is dropped: nothing is accepted any more, and the spawned tasks
    -- go on.
    unfoldable pub wait : List Remaining → Server Channel Receiver → Server Channel Receiver
    unfolding occur
    wait [] s = s
    wait (r ∷ rs) s = wait rs (occur parse (remains r) s)

  -- `_shutdown_complete_rx.recv()` is done when all tasks have dropped their sender; `main` then
  -- returns `Ok`.
  abbrev pub is_ended : Task Receiver → Bool
  is_ended t = elim (run t.turns new_shutdown) [ none ↦ false | some r ↦ true ]

  unfoldable pub all_ended : List (Task Receiver) → Bool
  all_ended [] = true
  all_ended (t ∷ ts) = is_ended t && all_ended ts

  -- Its own `_shutdown_rx.recv()` behind that is awaited too; what it says is dropped.
  abbrev pub awaited : Option Broadcast → Option (Result (Unit {0}))
  awaited none = none
  awaited (some b) = some (ok tt)

  unfoldable pub finish : Program Channel Receiver → Option (Result (Unit {0}))
  unfolding all_ended
  finish p =
      if all_ended p.server.tasks
      then awaited (recv p.shutdown_rx p.server.notify_shutdown).0
      else none
