-- ===== src/Server/Shutdown.antt =====
-- crates/statik_server/src/shutdown.rs: the listener for the server's shutdown signal.
use statik_rs.Prelude.{ℕ, Bool, true, false, Option, none, some}
use statik_rs.Core.Result.{Bytes}

-- What `broadcast::Receiver::recv` of tokio returns.
pub data Broadcast : Type 0 where
  value : Bytes → Broadcast
  closed : Broadcast
  lagged : ℕ → Broadcast

pub record Shutdown : Type 0 where
  pub is_shutdown : Bool

abbrev pub new_shutdown : Shutdown
new_shutdown = record { is_shutdown = false }

-- `Shutdown::recv`, with the reason that it reports.
unfoldable pub recv : Broadcast → Shutdown → Option Bytes × Shutdown
recv (Broadcast.value reason) s = (some reason, record s { is_shutdown = true })
recv Broadcast.closed s = (none, s)
recv (Broadcast.lagged n) s = (none, record s { is_shutdown = true })
