-- ===== src/Tests/Instances.antt =====
-- Functions that do what is asked of the third-party crates: big-endian integers, chat texts that
-- stand for themselves, and a compression that leaves everything as it is.
use native.Mathlib.Nat.{
  div-add-mod, mul-add-mod_self_left, mod-eq_of_lt, mod-lt, pow-suc, one-le-pow, mul-le-mul_right,
}
use statik_rs.Prelude.{
  ℕ, zero, suc, ◌+◌, ◌*◌, ◌/◌, ◌%◌, ◌^◌, ◌≤◌, ◌<◌, ◌≡◌, refl, sym, ap, ◌∙◌, arith,
}
use statik_rs.Prelude.{none, some, [], ◌∷◌, length, take, leb, if◌then◌else◌, le→leb}
use statik_rs.Core.Crates.{Crates, IsByteOrder}
use statik_rs.Core.Result.{Bytes}
use statik_rs.Proto.Chunk.{to_be_bytes}
use statik_rs.Server.Connection.{Zlib, IsZlib, Assets}

abbrev from_be_bytes : Bytes → ℕ
from_be_bytes [] = 0
from_be_bytes (b ∷ bytes) = b * 256 ^ length bytes + from_be_bytes bytes

length-to_be_bytes : (k n : ℕ) → length (to_be_bytes k n) ≡ k
length-to_be_bytes zero n = refl
length-to_be_bytes (suc k) n = omega (arith, length-to_be_bytes k n)

room : (r s m : ℕ) → r < 256 → s < m → r * m + s < 256 * m
room r s m h k = let fits : suc r * m ≤ 256 * m = mul-le-mul_right m (omega arith) in omega arith

mod_split : (n m : ℕ) → 1 ≤ m → n / m % 256 * m + n % m ≡ n % (256 * m)
mod_split n m h =
    let q = n / m in
    let split : n ≡ 256 * m * (q / 256) + (q % 256 * m + n % m) =
      omega (arith, div-add-mod n m, ap (λ (t : ℕ). m * t) (div-add-mod q 256)) in
    let small : q % 256 * m + n % m < 256 * m =
      room (q % 256) (n % m) m (omega arith) (mod-lt n h) in
    sym (
      ap (λ (t : ℕ). t % (256 * m)) split
      ∙ mul-add-mod_self_left (256 * m) (q / 256) (q % 256 * m + n % m)
      ∙ mod-eq_of_lt small)

from_be_bytes-to_be_bytes : (k n : ℕ) → from_be_bytes (to_be_bytes k n) ≡ n % 256 ^ k
from_be_bytes-to_be_bytes zero n = omega arith
from_be_bytes-to_be_bytes (suc k) n =
    ap (λ (l : ℕ). n / 256 ^ k % 256 * 256 ^ l + from_be_bytes (to_be_bytes k n))
      (length-to_be_bytes k n)
    ∙ ap (λ (v : ℕ). n / 256 ^ k % 256 * 256 ^ k + v) (from_be_bytes-to_be_bytes k n)
    ∙ mod_split n (256 ^ k) (one-le-pow k 256 (omega arith))
    ∙ ap (λ (t : ℕ). n % t) (omega (arith, pow-suc 256 k))

abbrev pub crates : Crates
crates = record {
  put_uint = to_be_bytes;
  get_uint = λ k bytes. from_be_bytes bytes % 256 ^ k;
  chat_to_string = λ message. some message.text;
  chat_from_str = λ s. some (record { text = s });
  status_to_string = λ response. some response.description.text;
  status_from_str = λ s. none;
}

pub crates-IsByteOrder : IsByteOrder crates
crates-IsByteOrder = record {
  length_put = length-to_be_bytes;
  get_put = λ k n h.
      ap (λ (t : ℕ). t % 256 ^ k) (from_be_bytes-to_be_bytes k n)
      ∙ ap (λ (t : ℕ). t % 256 ^ k) (mod-eq_of_lt h)
      ∙ mod-eq_of_lt h;
  get_bound = λ k bytes. mod-lt (from_be_bytes bytes) (one-le-pow k 256 (omega arith));
}

abbrev pub zlib : Zlib
zlib = record {
  deflate = λ s. some s;
  inflate = λ n s. if leb n (length s) then some (take n s) else none;
}

take_all : (s : Bytes) → take (length s) s ≡ s
take_all [] = refl
take_all (b ∷ s) = ap (λ (l : Bytes). b ∷ l) (take_all s)

inflate_all :
    (s d : Bytes)
    → some s ≡ some d
    → (if leb (length s) (length d) then some (take (length s) d) else none) ≡ some s
inflate_all s d e =
    let same : s ≡ d = cc in
    rw (← same, le→leb (length s) (length s) (omega arith)) (ap some (take_all s))

pub zlib-IsZlib : IsZlib zlib
zlib-IsZlib = record { inflate-deflate = inflate_all }

abbrev pub assets : Assets
assets = record {
  registry_bytes = 10 ∷ 0 ∷ 0 ∷ 0 ∷ [];
  dimension_type = 1 ∷ [];
  worldgen_biome = 2 ∷ [];
  chat_type = 3 ∷ [];
  damage_type = 4 ∷ [];
  trim_pattern = 5 ∷ [];
  trim_material = 6 ∷ [];
  wolf_variant = 7 ∷ [];
  painting_variant = 8 ∷ [];
  banner_pattern = 9 ∷ [];
  enchantment = 10 ∷ [];
  jukebox_song = 11 ∷ [];
}
