-- ===== src/Server/Text.antt =====
-- String literals and the functions of the standard library on strings that the server calls.
-- A Rust string is the list of its UTF-8 bytes; where the code walks over `char`s of any kind, as
-- `str::trim` does, it is the list of its code points, which `chars` gives.
use Prim.Native.Char.{code}
use Prim.Native.String.{String}
use statik_rs.Prelude.{ℕ, zero, suc, ◌+◌, ◌*◌, ◌%◌, Bool, true, false, ◌&&◌, ◌||◌, List, [], ◌∷◌}
use statik_rs.Prelude.{leb, ltb, ◌==◌, if◌then◌else◌}
use statik_rs.Core.Result.{Bytes}
use mathlib.Core.List.{reverse, map}

-- The bytes of an ASCII literal.
abbrev pub text : String → List ℕ
text String.[] = []
text (String.◌∷◌ c s) = code c ∷ text s

-- The first byte of a character in UTF-8 says how many bytes are due behind it, and has the first bits
-- of the code point; each of the others has six more.
abbrev next_point : ℕ → ℕ → ℕ → ℕ × ℕ
next_point zero point b =
    if ltb b 0x80
    then (0, b)
    else if ltb b 0xe0
    then (1, b % 32)
    else if ltb b 0xf0
    then (2, b % 16)
    else (3, b % 8)
next_point (suc due) point b = (due, point * 64 + b % 64)

chars_loop : Bytes → ℕ → ℕ → List ℕ
chars_loop [] due point = []
chars_loop (b ∷ s) due point =
    let (due', point') = next_point due point b in
    let rest = chars_loop s due' point' in if due' == 0 then point' ∷ rest else rest

-- `str::chars`: the code points of a string, which is well-formed UTF-8.
unfoldable pub chars : Bytes → List ℕ
unfolding chars_loop
chars s = chars_loop s 0 0

-- `==` of two strings.
abbrev pub text_eq : List ℕ → List ℕ → Bool
text_eq [] [] = true
text_eq (a ∷ s) (b ∷ t) = a == b && text_eq s t
text_eq _ _ = false

abbrev in_range : ℕ → ℕ → ℕ → Bool
in_range low high c = leb low c && leb c high

-- `char::is_ascii_alphanumeric`.
abbrev pub is_ascii_alphanumeric : ℕ → Bool
is_ascii_alphanumeric c = in_range b'0' b'9' c || in_range b'A' b'Z' c || in_range b'a' b'z' c

-- `char::is_whitespace`: the Unicode property `White_Space`.
abbrev pub is_whitespace : ℕ → Bool
is_whitespace c =
    in_range 9 13 c
    || c == 0x20
    || c == 0x85
    || c == 0xa0
    || c == 0x1680
    || in_range 0x2000 0x200a c
    || c == 0x2028
    || c == 0x2029
    || c == 0x202f
    || c == 0x205f
    || c == 0x3000

unfoldable pub trim_start : List ℕ → List ℕ
trim_start [] = []
trim_start (c ∷ s) = if is_whitespace c then trim_start s else c ∷ s

-- `str::trim`.
unfoldable pub trim : List ℕ → List ℕ
unfolding trim_start
trim s = reverse (trim_start (reverse (trim_start s)))

-- `str::to_ascii_lowercase`.
abbrev pub to_ascii_lowercase : List ℕ → List ℕ
to_ascii_lowercase = map (λ c. if in_range b'A' b'Z' c then c + 32 else c)
