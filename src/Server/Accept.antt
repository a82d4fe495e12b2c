-- ===== src/Server/Accept.antt =====
-- crates/statik_server/src/server.rs: the server with its tasks. The listeners, the file system and
-- base64 are parameters; what the listeners and the scheduler bring is a list of occurrences.
pub mod Tasks
pub mod Graceful
use statik_rs.Prelude.{ℕ, zero, suc, Bool, true, false, Option, none, some, List, [], ◌∷◌, ◌++◌}
use statik_rs.Prelude.{if◌then◌else◌}
use statik_rs.Core.Result.{Result, ok, err, Bytes, bind_failed, nobody_listens}
use statik_rs.Server.Api.{ApiRequest, ReadLine, reason_or, handle}
use statik_rs.Server.Channels.{Channels}
use statik_rs.Server.Config.{ServerConfig}
use statik_rs.Server.Connection.{Connection, new_connection}
use statik_rs.Server.Exec.{Exec}
use statik_rs.Server.Handler.{Turn, run}
use statik_rs.Server.Protocol.{ProtocolKind}
use statik_rs.Server.Shutdown.{Broadcast, new_shutdown}

-- A spawned connection task: its connection, its receiver, and the rounds that `Handler::run` has
-- gone.
pub record Task (Receiver : Type 0) : Type 0 where
  pub connection : Connection
  pub receiver : Receiver
  pub turns : List Turn

pub record Server (Channel Receiver : Type 0) : Type 0 where
  pub config : ServerConfig
  pub protocol : ProtocolKind
  pub notify_shutdown : Channel
  pub tasks : List (Task Receiver)

-- A branch of the `select!` in `Handler::run`: `handle_connection` has returned, or the shutdown
-- channel is asked.
pub data Poll : Type 0 where
  returned : Result (Unit {0}) → Poll
  notified : Poll

-- What happens to the server while `run` loops. `api_accepted` is the moment at which the task of a
-- management connection has read its line.
pub data Occurrence : Type 0 where
  mc_accepted mc_failed api_failed : Occurrence
  api_accepted : ReadLine → Occurrence
  polled : ℕ → Poll → Occurrence

-- The icon of the status response: the file that the configuration names, in base64.
abbrev pub load_icon : (Bytes → Option Bytes) → (Bytes → Bytes) → Option Bytes → Option Bytes
load_icon read base64 none = none
load_icon read base64 (some path) = elim (read path) [
  | none ↦ none
  | some file ↦ some (base64 file)
]

abbrev pub with_icon : (Bytes → Option Bytes) → (Bytes → Bytes) → ServerConfig → ServerConfig
with_icon read base64 config = record config {
  mc = record config.mc { icon = load_icon read base64 config.mc.icon };
}

module _ ⦃c : Channels⦄ where
  open c use {Channel, Receiver, subscribe, send, recv}

  -- `Server::new`, with `TcpListener::bind` on a host and a port.
  unfoldable pub new_server :
      (Bytes → ℕ → Bool)
      → (Bytes → Option Bytes)
      → (Bytes → Bytes)
      → ServerConfig
      → ProtocolKind
      → Channel
      → Result (Server Channel Receiver)
  new_server bind read base64 config protocol channel =
      if bind config.general.host config.mc.port
      then if bind config.general.host config.api.port
        then ok (record {
          config = with_icon read base64 config;
          protocol = protocol;
          notify_shutdown = channel;
          tasks = [];
        })
        else err bind_failed
      else err bind_failed

  abbrev pub new_task : ServerConfig → ProtocolKind → Receiver → Task Receiver
  new_task config protocol receiver = record {
    connection = new_connection config protocol;
    receiver = receiver;
    turns = [];
  }

  -- The branch of `mc_listener.accept()`.
  abbrev pub accept_mc : Server Channel Receiver → Server Channel Receiver
  accept_mc s =
      let (receiver, channel) = subscribe s.notify_shutdown in
      record s {
        notify_shutdown = channel;
        tasks = s.tasks ++ new_task s.config s.protocol receiver ∷ [];
      }

  abbrev pub noticed : Task Receiver → Option Broadcast × Receiver → Task Receiver
  noticed t (none, receiver) = record t { receiver = receiver }
  noticed t (some b, receiver) = record t {
    receiver = receiver;
    turns = t.turns ++ Turn.notice b ∷ [];
  }

  abbrev pub take_turn : Poll → Channel → Task Receiver → Task Receiver
  take_turn (Poll.returned r) channel t = record t { turns = t.turns ++ Turn.returned r ∷ [] }
  take_turn Poll.notified channel t = noticed t (recv t.receiver channel)

  -- A task whose `run` has returned is not polled any more.
  unfoldable pub poll_task : Poll → Channel → Task Receiver → Task Receiver
  poll_task poll channel t = elim (run t.turns new_shutdown) [
    | none ↦ take_turn poll channel t
    | some r ↦ t
  ]

  unfoldable pub poll_at : ℕ → Poll → Channel → List (Task Receiver) → List (Task Receiver)
  unfolding poll_task
  poll_at i poll channel [] = []
  poll_at zero poll channel (t ∷ ts) = poll_task poll channel t ∷ ts
  poll_at (suc i) poll channel (t ∷ ts) = t ∷ poll_at i poll channel ts

  -- `Server::shutdown`.
  unfoldable pub shutdown : Option Bytes → Exec (Server Channel Receiver) (Unit {0})
  shutdown reason s =
      let (heard, channel) = send (reason_or s.config.mc.disconnect_msg reason) s.notify_shutdown in
      (if heard then ok tt else err nobody_listens, record s { notify_shutdown = channel })

  module _ (parse : List ℕ → Option ApiRequest) where
    -- One round of the loop of `Server::run`, or of a task that it has spawned.
    unfoldable pub occur : Occurrence → Server Channel Receiver → Server Channel Receiver
    unfolding poll_at handle
    occur Occurrence.mc_accepted s = accept_mc s
    occur Occurrence.mc_failed s = s
    occur Occurrence.api_failed s = s
    occur (Occurrence.api_accepted request) s = record s {
      notify_shutdown = (handle send parse request s.config s.notify_shutdown).1;
    }
    occur (Occurrence.polled i poll) s = record s {
      tasks = poll_at i poll s.notify_shutdown s.tasks;
    }

    -- `Server::run`, which does not return.
    unfoldable pub serve : List Occurrence → Server Channel Receiver → Server Channel Receiver
    unfolding occur
    serve [] s = s
    serve (o ∷ os) s = serve os (occur o s)
