-- ===== src/Proto/Chunk.antt =====
-- crates/statik_proto/src/common.rs, module `chunk_payload`: the empty chunk sent to the client.
pub mod VarInts
use mathlib.Core.Logic.{dite}
use mathlib.Core.WellFounded.{Acc}
use native.Mathlib.Decide.{ℕ_discrete}
use Prim.Native.Char.{code}
use Prim.Native.String.{String}
use statik_rs.Prelude.{ℕ, zero, suc, ◌-◌, ◌*◌, ◌/◌, ◌%◌, ◌^◌, ◌<◌, bit_and, bit_or, arith}
use statik_rs.Prelude.{List, [], ◌∷◌, ◌++◌, length, replicate, lt_wf, ◌≡◌, ◌≢◌}
use statik_rs.Prelude.Bits.{and_zero_left}
use statik_rs.Prelude.Int.{ℤ, pos, as_unsigned, as_unsigned-lt}
use statik_rs.Core.Result.{Bytes}
use statik_rs.Core.VarInt.{from_usize}

-- `n.to_be_bytes()` of an integer of k bytes.
abbrev pub to_be_bytes : ℕ → ℕ → Bytes
to_be_bytes zero n = []
to_be_bytes (suc k) n = n / 256 ^ k % 256 ∷ to_be_bytes k n

-- The bytes of an ASCII literal.
abbrev pub ascii : String → Bytes
ascii String.[] = []
ascii (String.◌∷◌ c s) = code c ∷ ascii s

-- `!0x7f` as a bit pattern.
abbrev pub above_seven_bits : ℕ
above_seven_bits = 2 ^ 32 - 1 - 0x7f

pub shifted_small : (value : ℕ) → value < 2 ^ 32 → value / 2 ^ 7 < 2 ^ 32
shifted_small value h = omega arith

pub seven_bits_less :
    (value : ℕ) → value < 2 ^ 32 → bit_and value above_seven_bits ≢ 0 → value / 2 ^ 7 < value
seven_bits_less zero h more = absurd (more (and_zero_left above_seven_bits))
seven_bits_less (suc n) h more = omega arith

-- `write_var_int`, on the bit pattern of its `i32`.
unfoldable pub write_loop : (value : ℕ) → value < 2 ^ 32 → Acc ◌<◌ value → Bytes
write_loop value h (Acc.intro _ smaller) =
    dite (ℕ_discrete (bit_and value above_seven_bits) 0) (λ _. value % 2 ^ 8 ∷ [])
      (λ more.
        bit_or (bit_and value 0x7f) 0x80 % 2 ^ 8
        ∷ write_loop (value / 2 ^ 7) (shifted_small value h)
            (smaller _ (seven_bits_less value h more)))

unfoldable pub write_var_int : ℤ → Bytes
write_var_int v =
    let value = as_unsigned (2 ^ 32) v in
    write_loop value (as_unsigned-lt (2 ^ 32) v (omega arith)) (lt_wf.apply value)

-- `write_nbt_string`: the length is cast to a `u16`.
unfoldable pub write_nbt_string : String → Bytes
write_nbt_string s = to_be_bytes 2 (length (ascii s) % 2 ^ 16) ++ ascii s

-- A `TAG_Long_Array` of 256 zeros.
unfoldable pub zero_heightmap : String → Bytes
unfolding write_nbt_string
zero_heightmap name = 0x0c ∷ write_nbt_string name ++ to_be_bytes 4 256 ++ replicate (256 * 8) 0

-- The 1.20.1 heightmaps start with a root name of length 0, those of 1.21.1 with none.
unfoldable pub heightmaps_nbt_v1_20_1 : Bytes
heightmaps_nbt_v1_20_1 =
    0x0a ∷ to_be_bytes 2 0
    ++ zero_heightmap "MOTION_BLOCKING"
    ++ zero_heightmap "WORLD_SURFACE"
    ++ 0x00 ∷ []

unfoldable pub heightmaps_nbt_v1_21_1 : Bytes
heightmaps_nbt_v1_21_1 =
    0x0a ∷ zero_heightmap "MOTION_BLOCKING" ++ zero_heightmap "WORLD_SURFACE" ++ 0x00 ∷ []

unfoldable pub write_single_value_palette : Bytes
write_single_value_palette = 0 ∷ write_var_int (pos 0) ++ write_var_int (pos 0)

unfoldable pub write_section : Bytes
write_section = to_be_bytes 2 0 ++ write_single_value_palette ++ write_single_value_palette

abbrev pub num_sections : ℕ
num_sections = 24

unfoldable pub repeat_bytes : ℕ → Bytes → Bytes
repeat_bytes zero part = []
repeat_bytes (suc n) part = part ++ repeat_bytes n part

unfoldable pub chunk_data_buffer : Bytes
chunk_data_buffer = repeat_bytes num_sections write_section

-- `append_common_chunk` on an empty buffer.
unfoldable pub append_common_chunk : Bytes → Bytes
append_common_chunk heightmaps =
    to_be_bytes 4 0
    ++ to_be_bytes 4 0
    ++ heightmaps
    ++ write_var_int (from_usize (length chunk_data_buffer))
    ++ chunk_data_buffer
    ++ write_var_int (pos 0)
    ++ replicate 4 0
    ++ write_var_int (pos 0)
    ++ write_var_int (pos 0)

unfoldable pub void_chunk_bytes_v1_20_1 : Bytes
void_chunk_bytes_v1_20_1 = append_common_chunk heightmaps_nbt_v1_20_1

unfoldable pub void_chunk_bytes_v1_21_1 : Bytes
void_chunk_bytes_v1_21_1 = append_common_chunk heightmaps_nbt_v1_21_1
