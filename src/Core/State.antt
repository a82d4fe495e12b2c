-- ===== src/Core/State.antt =====
-- crates/statik_core/src/state.rs and the enumeration of handshake.rs.
use statik_rs.Prelude.{Bool, true, false}
use statik_rs.Prelude.Int.{ℤ, pos}

-- The protocol states of a connection.
pub data State : Type 0 where
  handshake status login configuration play : State

-- The `next_state` field of the handshake packet.
pub data ClientIntent : Type 0 where
  status login transfer : ClientIntent

-- `self as i32` of both enums.
unfoldable pub state_discriminant : State → ℤ
state_discriminant State.handshake = pos 0
state_discriminant State.status = pos 1
state_discriminant State.login = pos 2
state_discriminant State.configuration = pos 3
state_discriminant State.play = pos 4

unfoldable pub intent_discriminant : ClientIntent → ℤ
intent_discriminant ClientIntent.status = pos 1
intent_discriminant ClientIntent.login = pos 2
intent_discriminant ClientIntent.transfer = pos 3

-- The derived `PartialEq` of `State`.
abbrev pub state_eq : State → State → Bool
state_eq State.handshake State.handshake = true
state_eq State.status State.status = true
state_eq State.login State.login = true
state_eq State.configuration State.configuration = true
state_eq State.play State.play = true
state_eq _ _ = false
