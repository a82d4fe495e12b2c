-- ===== src/Core/Wire/Valid.antt =====
-- The values that a type's codec is meant to carry, and the types that mark their own end.
use statik_rs.Prelude.{◌^◌, ◌≤◌, ◌<◌, ◌≡◌, Bool, true, false, ◌&&◌, ◌||◌, Option, none, some}
use statik_rs.Prelude.{All, length}
use statik_rs.Prelude.Int.{IsInt}
use statik_rs.Core.Crates.{Crates}
use statik_rs.Core.Position.RoundTrip.{InRange}
use statik_rs.Core.Result.{Bytes}
use statik_rs.Core.Utf8.{is_utf8}
use statik_rs.Core.Wire

-- A Rust string that the protocol can carry.
abbrev pub IsText : Bytes → Type 0
IsText s = (is_utf8 s ≡ true) × (length s ≤ Wire.i32_max)

-- `serde_json` gives a text for the value, and that text parses to the value again.
abbrev pub IsJson : {A : Type 0} → (A → Option Bytes) → (Bytes → Option A) → A → Type 0
IsJson print parse a = (s : Bytes) × (print a ≡ some s) × IsText s × (parse s ≡ some a)

abbrev pub OnSome : {A : Type 0} → (A → Type 0) → Option A → Type 0
OnSome P none = Unit {0}
OnSome P (some a) = P a

module _ ⦃c : Crates⦄ where
  abbrev pub IsValid : (t : Wire.Ty) → Wire.Val t → Type 0
  IsValid Wire.boolean b = Unit {0}
  IsValid Wire.var_int v = IsInt (2 ^ 32) v
  IsValid Wire.string s = IsText s
  IsValid Wire.raw_bytes bytes = Unit {0}
  IsValid Wire.block_pos p = InRange p
  IsValid Wire.state s = Unit {0}
  IsValid Wire.intent s = Unit {0}
  IsValid Wire.chat message = IsJson c.chat_to_string c.chat_from_str message
  IsValid Wire.status_response r = IsJson c.status_to_string c.status_from_str r
  IsValid (Wire.uint k) n = n < 256 ^ k
  IsValid (Wire.sint k) z = IsInt (256 ^ k) z
  IsValid (Wire.byte_array k) bytes = length bytes ≡ k
  IsValid (Wire.vec t) xs = (length xs ≤ Wire.i32_max) × All (IsValid t) xs
  IsValid (Wire.option t) x = OnSome (IsValid t) x
  IsValid Wire.end done = Unit {0}
  IsValid (Wire.field name t rest) (v, vs) = IsValid t v × IsValid rest vs

-- A `RawBytes` runs to the end of its frame; every other type says how long it is.
abbrev pub self_delimiting : Wire.Ty → Bool
self_delimiting Wire.raw_bytes = false
self_delimiting (Wire.vec t) = self_delimiting t
self_delimiting (Wire.option t) = self_delimiting t
self_delimiting (Wire.field name t rest) = self_delimiting t && self_delimiting rest
self_delimiting _ = true

abbrev pub is_end : Wire.Ty → Bool
is_end Wire.end = true
is_end _ = false

-- `RawBytes` stands at the end only.
abbrev pub fills_frame : Wire.Ty → Bool
fills_frame Wire.raw_bytes = true
fills_frame (Wire.vec t) = self_delimiting t
fills_frame (Wire.option t) = fills_frame t
fills_frame (Wire.field name t rest) =
    (self_delimiting t && fills_frame rest) || (fills_frame t && is_end rest)
fills_frame _ = true
