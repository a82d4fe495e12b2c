-- ===== src/Core/Utf8.antt =====
-- `String::from_utf8` of the standard library, as `impls.rs` uses it: a Rust `String` is the list
-- of its bytes, and these are well-formed UTF-8 (the table of the Unicode standard).
use statik_rs.Prelude.{ℕ, zero, suc, Bool, false, ◌&&◌, Option, none, some, [], ◌∷◌}
use statik_rs.Prelude.{ltb, leb, ◌==◌, if◌then◌else◌}
use statik_rs.Core.Result.{Bytes}

-- How many continuation bytes are due, and the range that the next one must lie in.
pub record Pending : Type 0 where
  pub due : ℕ
  pub low : ℕ
  pub high : ℕ

abbrev pub between_chars : Pending
between_chars = record { due = 0; low = 0x80; high = 0xbf }

abbrev in_range : ℕ → ℕ → ℕ → Bool
in_range low high b = leb low b && leb b high

-- The first byte of a character.
abbrev lead : ℕ → Option Pending
lead b =
    if ltb b 0x80
    then some between_chars
    else if in_range 0xc2 0xdf b
    then some (record { due = 1; low = 0x80; high = 0xbf })
    else if b == 0xe0
    then some (record { due = 2; low = 0xa0; high = 0xbf })
    else if b == 0xed
    then some (record { due = 2; low = 0x80; high = 0x9f })
    else if in_range 0xe1 0xef b
    then some (record { due = 2; low = 0x80; high = 0xbf })
    else if b == 0xf0
    then some (record { due = 3; low = 0x90; high = 0xbf })
    else if in_range 0xf1 0xf3 b
    then some (record { due = 3; low = 0x80; high = 0xbf })
    else if b == 0xf4
    then some (record { due = 3; low = 0x80; high = 0x8f })
    else none

abbrev continuation : ℕ → ℕ → ℕ → ℕ → Option Pending
continuation due low high b =
    if in_range low high b then some (record { due = due; low = 0x80; high = 0xbf }) else none

abbrev utf8_step : ℕ → ℕ → ℕ → ℕ → Option Pending
utf8_step zero low high b = lead b
utf8_step (suc due) low high b = continuation due low high b

unfoldable pub utf8_loop : Bytes → Pending → Bool
utf8_loop [] p = p.due == 0
utf8_loop (b ∷ bytes) p = elim (utf8_step p.due p.low p.high b) [
  | none ↦ false
  | some q ↦ utf8_loop bytes q
]

unfoldable pub is_utf8 : Bytes → Bool
unfolding utf8_loop
is_utf8 bytes = utf8_loop bytes between_chars
