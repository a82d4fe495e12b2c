-- ===== src/Server/Connection/Username.antt =====
-- crates/statik_server/src/connection.rs: `is_valid_username`.
use statik_rs.Prelude.{
  ℕ, ◌≤◌, ◌≡◌, arith, Bool, true, ◌&&◌, ◌||◌, ◌⊎◌, All, [], ◌∷◌, leb, ◌==◌, length,
}
use statik_rs.Core.Result.{Bytes}
use statik_rs.Server.Text.{is_ascii_alphanumeric}

-- The UTF-8 bytes of a character that is not ASCII are no letters, so `chars` and bytes agree here.
abbrev pub is_username_char : ℕ → Bool
is_username_char c = is_ascii_alphanumeric c || c == b'_'

abbrev pub all_chars : Bytes → Bool
all_chars [] = true
all_chars (c ∷ s) = is_username_char c && all_chars s

unfoldable pub is_valid_username : Bytes → Bool
is_valid_username username =
    (leb 3 (length username) && leb (length username) 16) && all_chars username

-- An ASCII letter, a digit or an underscore, by its code.
abbrev pub IsNameChar : ℕ → Type 0
IsNameChar c = ((48 ≤ c) × (c ≤ 57)) ⊎ (((65 ≤ c) × (c ≤ 90)) ⊎ (((97 ≤ c) × (c ≤ 122)) ⊎ (c ≡ 95)))

is_username_char_lem : (c : ℕ) → is_username_char c ≡ true → IsNameChar c
is_username_char_lem c h = ground arith

all_chars_lem : (s : Bytes) → all_chars s ≡ true → All IsNameChar s
all_chars_lem [] h = tt
all_chars_lem (c ∷ s) h = (is_username_char_lem c (ground arith), all_chars_lem s (ground arith))

pub is_valid_username_lem :
    (username : Bytes)
    → is_valid_username username ≡ true
    → (3 ≤ length username) × (length username ≤ 16) × All IsNameChar username
unfolding is_valid_username
is_valid_username_lem username h =
    (ground arith, ground arith, all_chars_lem username (ground arith))
