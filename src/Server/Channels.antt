-- ===== src/Server/Channels.antt =====
-- The broadcast channel of tokio, by which the server tells its tasks to shut down, as a parameter.
-- A receiver has its own place in the channel, which `recv` moves on.
use statik_rs.Prelude.{◌≡◌, Bool, true, Option, some}
use statik_rs.Core.Result.{Bytes}
use statik_rs.Server.Shutdown.{Broadcast}

pub record Channels : Type 1 where
  pub Channel : Type 0
  pub Receiver : Type 0
  -- `broadcast::channel(1)`: the first receiver and the sender
  pub channel : Receiver × Channel
  pub subscribe : Channel → Receiver × Channel
  -- `Sender::send`, and whether it succeeds
  pub send : Bytes → Channel → Bool × Channel
  -- what `Receiver::recv` returns if it is ready
  pub recv : Receiver → Channel → Option Broadcast × Receiver

-- A message, or word of one that was missed.
pub data IsNews : Broadcast → Type 0 where
  value : (reason : Bytes) → IsNews (Broadcast.value reason)
  lagged : (n : _) → IsNews (Broadcast.lagged n)

-- What the documentation of `tokio::sync::broadcast` says: a receiver hears of every message that is
-- sent while it is there, by the message or by word that it was missed.
pub record IsBroadcast (c : Channels) : Type 1 where
  pub Listens : c.Receiver → c.Channel → Type 0
  -- something that was sent is still to be received
  pub Waits : c.Receiver → c.Channel → Type 0
  pub channel-Listens : Listens c.channel.0 c.channel.1
  pub subscribe-Listens : (ch : c.Channel) → Listens (c.subscribe ch).0 (c.subscribe ch).1
  pub subscribe-keeps :
      (r : c.Receiver) (ch : c.Channel) → Listens r ch → Listens r (c.subscribe ch).1
  pub subscribe-Waits : (r : c.Receiver) (ch : c.Channel) → Waits r ch → Waits r (c.subscribe ch).1
  pub send-keeps :
      (r : c.Receiver) (ch : c.Channel) (m : Bytes) → Listens r ch → Listens r (c.send m ch).1
  pub send-Waits :
      (r : c.Receiver) (ch : c.Channel) (m : Bytes) → Listens r ch → Waits r (c.send m ch).1
  pub send-still :
      (r : c.Receiver) (ch : c.Channel) (m : Bytes) → Waits r ch → Waits r (c.send m ch).1
  pub send-heard :
      (r : c.Receiver) (ch : c.Channel) (m : Bytes) → Listens r ch → (c.send m ch).0 ≡ true
  pub recv-keeps : (r : c.Receiver) (ch : c.Channel) → Listens r ch → Listens (c.recv r ch).1 ch
  pub recv-IsNews :
      (r : c.Receiver) (ch : c.Channel)
      → Waits r ch
      → (b : Broadcast) × ((c.recv r ch).0 ≡ some b) × IsNews b
