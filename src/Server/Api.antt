-- ===== src/Server/Api.antt =====
-- crates/statik_server/src/api.rs: the management interface. The JSON parser and printer and the
-- broadcast channel are parameters; an error text is a constructor of `ApiError`.
pub mod Token
pub mod Effect
use statik_rs.Prelude.{ℕ, Bool, true, false, Option, none, some, List, [], ◌∷◌, ◌++◌, if◌then◌else◌}
use statik_rs.Prelude.Int.{ℤ}
use statik_rs.Core.Result.{Bytes}
use statik_rs.Server.Config.{ServerConfig, McServerConfig}
use statik_rs.Server.Text.{text, text_eq, trim}

pub record ApiRequest : Type 0 where
  pub action : Bytes
  pub token : Option Bytes
  pub reason : Option Bytes

pub record ApiStatus : Type 0 where
  pub mc_port : ℕ
  pub motd : Bytes
  pub max_players : ℤ
  pub hidden : Bool

pub data ApiError : Type 0 where
  invalid_request unauthorized shutdown_disabled send_failed : ApiError
  unknown_action : Bytes → ApiError

pub record ApiResponse : Type 0 where
  pub ok : Bool
  pub error : Option ApiError
  pub pong : Option Bool
  pub status : Option ApiStatus

-- `ApiResponse::ok`, `ApiResponse::err`, and the answers to `"ping"` and `"status"`.
abbrev pub ok_response : ApiResponse
ok_response = record { ok = true; error = none; pong = none; status = none }

abbrev pub err_response : ApiError → ApiResponse
err_response message = record { ok = false; error = some message; pong = none; status = none }

abbrev pub ping_reply : ApiResponse
ping_reply = record { ok = true; error = none; pong = some true; status = none }

abbrev pub status_reply : ApiStatus → ApiResponse
status_reply status = record { ok = true; error = none; pong = none; status = some status }

-- `reader.read_line`: nothing before the end of the stream, a failure, or a line.
pub data ReadLine : Type 0 where
  end_of_stream : ReadLine
  failed : ReadLine
  line : List ℕ → ReadLine

abbrev pub status_of : McServerConfig → ApiStatus
status_of mc = record {
  mc_port = mc.port;
  motd = mc.motd;
  max_players = mc.max_players;
  hidden = mc.hidden;
}

-- `request.token.as_deref() == Some(expected)`.
abbrev pub token_is : Bytes → Option Bytes → Bool
token_is expected none = false
token_is expected (some token) = text_eq token expected

abbrev pub reason_or : Bytes → Option Bytes → Bytes
reason_or default_reason none = default_reason
reason_or default_reason (some reason) = reason

-- `notify_shutdown.send` tells whether anybody listens.
module _ {S : Type 0} (send : Bytes → S → Bool × S) where
  abbrev pub sent : Bool × S → ApiResponse × S
  sent (true, s) = (ok_response, s)
  sent (false, s) = (err_response ApiError.send_failed, s)

  -- The arm of `"shutdown"`, by the configured token.
  abbrev pub shut_down : Option Bytes → Bytes → S → ApiResponse × S
  shut_down none reason s = (err_response ApiError.shutdown_disabled, s)
  shut_down (some expected) reason s = sent (send reason s)

  -- The `match` on the action.
  unfoldable pub act : ApiRequest → ServerConfig → S → ApiResponse × S
  act request config s =
      if text_eq request.action (text "ping")
      then (ping_reply, s)
      else if text_eq request.action (text "status")
      then (status_reply (status_of config.mc), s)
      else if text_eq request.action (text "shutdown")
      then shut_down config.api.token (reason_or config.mc.disconnect_msg request.reason) s
      else (err_response (ApiError.unknown_action request.action), s)

  -- The token check in front of it.
  abbrev pub checked : Option Bytes → Option Bytes → ApiResponse × S → S → ApiResponse × S
  checked none token answer s = answer
  checked (some expected) token answer s =
      if token_is expected token then answer else (err_response ApiError.unauthorized, s)

  unfoldable pub dispatch : ApiRequest → ServerConfig → S → ApiResponse × S
  unfolding act
  dispatch request config s = checked config.api.token request.token (act request config s) s

  abbrev pub answered : ApiResponse × S → Option ApiResponse × S
  answered (response, s) = (some response, s)

  -- What follows `serde_json::from_str`.
  abbrev pub respond : Option ApiRequest → ServerConfig → S → Option ApiResponse × S
  respond none config s = (some (err_response ApiError.invalid_request), s)
  respond (some request) config s = answered (dispatch request config s)

  -- `handle`: the response that is written, if any.
  unfoldable pub handle :
      (List ℕ → Option ApiRequest) → ReadLine → ServerConfig → S → Option ApiResponse × S
  unfolding dispatch trim
  handle parse ReadLine.end_of_stream config s = (none, s)
  handle parse ReadLine.failed config s = (none, s)
  handle parse (ReadLine.line bytes) config s = respond (parse (trim bytes)) config s

-- `write_response`: the line that is written, if `serde_json::to_string` gives a text.
abbrev pub response_line : Option Bytes → Bytes
response_line none = []
response_line (some out) = out ++ 10 ∷ []

abbrev pub write_response : (ApiResponse → Option Bytes) → ApiResponse → Bytes
write_response to_string response = response_line (to_string response)
