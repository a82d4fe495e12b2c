-- ===== src/Core/Status.antt =====
-- The two types that travel as JSON text: crates/statik_core/src/chat.rs, and
-- crates/statik_proto/src/v1_20_1/s2c/status/response.rs, which v1_21_1 has a copy of.
use statik_rs.Prelude.{ℕ, Bool, Option, none, some, List, ◌++◌}
use statik_rs.Prelude.Int.{ℤ}
use statik_rs.Core.Result.{Bytes}

-- Text is the list of its UTF-8 bytes.
pub record Chat : Type 0 where
  pub text : Bytes

pub record Version : Type 0 where
  pub name : Bytes
  pub protocol : ℕ

pub record PlayerSample : Type 0 where
  pub name : Bytes
  pub id : ℕ

pub record Players : Type 0 where
  pub max : ℤ
  pub online : ℤ
  pub sample : List PlayerSample

pub record StatusResponse : Type 0 where
  pub version : Version
  pub players : Players
  pub description : Chat
  pub favicon : Option Bytes
  pub enforces_secure_chat : Bool

-- `format!("data:image/png;base64,{data}")`, where there is an icon.
abbrev pub data_url : Bytes → Option Bytes → Option Bytes
data_url prefix none = none
data_url prefix (some icon) = some (prefix ++ icon)

-- `StatusResponse::new`, `Version::new` and `Players::new`; `prefix` is the literal of the format.
abbrev pub new_version : Bytes → ℕ → Version
new_version name protocol = record { name = name; protocol = protocol }

abbrev pub new_players : ℤ → ℤ → List PlayerSample → Players
new_players max online sample = record { max = max; online = online; sample = sample }

abbrev pub new_status_response :
    Bytes → Bytes → ℕ → Players → Chat → Option Bytes → Bool → StatusResponse
new_status_response prefix version_name protocol players description favicon enforces = record {
  version = new_version version_name protocol;
  players = players;
  description = description;
  favicon = data_url prefix favicon;
  enforces_secure_chat = enforces;
}
