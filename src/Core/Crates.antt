-- ===== src/Core/Crates.antt =====
-- The third-party crates that the codecs call, as parameters: `byteorder` for integers of several
-- bytes and `serde_json` for the two types that travel as JSON text.
use statik_rs.Prelude.{ℕ, ◌^◌, ◌<◌, ◌≡◌, Option, length}
use statik_rs.Core.Result.{Bytes}
use statik_rs.Core.Status.{Chat, StatusResponse}

pub record Crates : Type 0 where
  -- `write_u{8 k}::<BigEndian>` and what `read_u{8 k}::<BigEndian>` makes of its k bytes
  pub put_uint : ℕ → ℕ → Bytes
  pub get_uint : ℕ → Bytes → ℕ
  -- `serde_json::to_string` and `serde_json::from_str`
  pub chat_to_string : Chat → Option Bytes
  pub chat_from_str : Bytes → Option Chat
  pub status_to_string : StatusResponse → Option Bytes
  pub status_from_str : Bytes → Option StatusResponse

-- What the codecs rely on: an integer of k bytes is written as k bytes, which are read as it.
pub record IsByteOrder (c : Crates) : Type 0 where
  pub length_put : (k n : ℕ) → length (c.put_uint k n) ≡ k
  pub get_put : (k n : ℕ) → n < 256 ^ k → c.get_uint k (c.put_uint k n) ≡ n
  pub get_bound : (k : ℕ) (bytes : Bytes) → c.get_uint k bytes < 256 ^ k
