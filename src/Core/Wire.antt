-- ===== src/Core/Wire.antt =====
-- crates/statik_core/src/impls.rs and packet.rs: the types that go over the wire, each with its
-- `Encode` and `Decode`. A struct that derives its codec is the list of its fields
-- (crates/statik_derive/src/encode.rs, decode.rs): `field name type rest`, closed by `end`.

pub mod Valid
pub mod RoundTrip
pub mod Reading
pub mod Local
pub mod Domain
use Prim.Native.String.{String}
use statik_rs.Prelude.{ℕ, zero, suc, ◌-◌, ◌^◌, Bool, true, false, Option, none, some}
use statik_rs.Prelude.{List, [], ◌∷◌, ◌++◌, leb, ◌==◌, if◌then◌else◌, length, take, drop}
use statik_rs.Prelude.Int.{ℤ, pos, negsuc, as_unsigned, as_signed}
use statik_rs.Core.Crates.{Crates}
use statik_rs.Core.Status.{Chat, StatusResponse}
use statik_rs.Core.Position.{BlockPos, to_packed, from_packed}
use statik_rs.Core.Result.{Result, ok, err, ◌>>=◌, ensure, Bytes, unexpected_eof}
use statik_rs.Core.Result.{bad_bool, negative_length, bad_utf8, too_long, json_failed}
use statik_rs.Core.Result.{bad_state, bad_intent}
use statik_rs.Core.State.{State, ClientIntent, state_discriminant, intent_discriminant}
use statik_rs.Core.Utf8.{is_utf8}
use statik_rs.Core.VarInt.{encode_varint, decode_varint, from_usize}

-- `uint k` and `sint k` are the integers of k bytes. A float is its bit pattern, a `Uuid` its u128.
pub data Ty : Type 0 where
  boolean var_int string raw_bytes block_pos state intent chat status_response : Ty
  uint sint byte_array : ℕ → Ty
  vec option : Ty → Ty
  end : Ty
  field : String → Ty → Ty → Ty

abbrev pub u8 : Ty
u8 = uint 1

abbrev pub u16 : Ty
u16 = uint 2

abbrev pub i8 : Ty
i8 = sint 1

abbrev pub i16 : Ty
i16 = sint 2

abbrev pub i32 : Ty
i32 = sint 4

abbrev pub i64 : Ty
i64 = sint 8

abbrev pub f32 : Ty
f32 = uint 4

abbrev pub f64 : Ty
f64 = uint 8

abbrev pub uuid : Ty
uuid = uint 16

-- The fields of a struct, in order.
abbrev pub struct : List (String × Ty) → Ty
struct [] = end
struct ((name, t) ∷ rest) = field name t (struct rest)

-- The values of a type.
abbrev pub Val : Ty → Type 0
Val boolean = Bool
Val var_int = ℤ
Val string = Bytes
Val raw_bytes = Bytes
Val block_pos = BlockPos
Val state = State
Val intent = ClientIntent
Val chat = Chat
Val status_response = StatusResponse
Val (uint k) = ℕ
Val (sint k) = ℤ
Val (byte_array k) = Bytes
Val (vec t) = List (Val t)
Val (option t) = Option (Val t)
Val end = Unit {0}
Val (field name t rest) = Val t × Val rest

abbrev pub i32_max : ℕ
i32_max = 2 ^ 31 - 1

-- `String::encode`.
unfoldable pub encode_string : Bytes → Result Bytes
encode_string s =
    ensure (leb (length s) i32_max) too_long (ok (encode_varint (from_usize (length s)) ++ s))

-- `serde_json::to_string(self)?.encode(buffer)`.
abbrev pub encode_json : Option Bytes → Result Bytes
encode_json none = err json_failed
encode_json (some s) = encode_string s

-- The loop of `Vec::encode`.
unfoldable pub encode_elements : {A : Type 0} → (A → Result Bytes) → List A → Result Bytes
encode_elements write [] = ok []
encode_elements write (x ∷ xs) = do
  first ← write x
  others ← encode_elements write xs
  ok (first ++ others)

-- `read_exact` of a buffer of k bytes.
unfoldable pub read_exact : ℕ → Bytes → Result (Bytes × Bytes)
read_exact k bytes =
    if leb k (length bytes) then ok (take k bytes, drop k bytes) else err unexpected_eof

-- `bool::decode`, after its byte is read.
abbrev pub decode_bool : ℕ → Bytes → Result (Bool × Bytes)
decode_bool n rest = if leb n 1 then ok (n == 1, rest) else err (bad_bool)

-- A length read from a VarInt, which may not be negative.
abbrev pub checked_length : ℤ → Result ℕ
checked_length (pos n) = ok n
checked_length (negsuc n) = err negative_length

-- `String::decode`: the bytes are read one by one, then checked.
unfoldable pub decode_string : Bytes → Result (Bytes × Bytes)
unfolding read_exact
decode_string bytes = do
  (declared, rest) ← decode_varint bytes
  n ← checked_length declared
  (s, rest') ← read_exact n rest
  if is_utf8 s then ok (s, rest') else err bad_utf8

-- `serde_json::from_str(&String::decode(buffer)?)`.
abbrev pub from_json : {A : Type 0} → Option A → Bytes → Result (A × Bytes)
from_json none rest = err json_failed
from_json (some a) rest = ok (a, rest)

-- The loop of `Vec::decode`.
unfoldable pub decode_elements :
    {A : Type 0} → (Bytes → Result (A × Bytes)) → ℕ → Bytes → Result (List A × Bytes)
decode_elements read zero bytes = ok ([], bytes)
decode_elements read (suc n) bytes = do
  (x, rest) ← read bytes
  (xs, rest') ← decode_elements read n rest
  ok (x ∷ xs, rest')

abbrev pub state_of : ℤ → Bytes → Result (State × Bytes)
state_of (pos n) rest =
    if n == 0
    then ok (State.handshake, rest)
    else if n == 1
    then ok (State.status, rest)
    else if n == 2
    then ok (State.login, rest)
    else if n == 3
    then ok (State.configuration, rest)
    else if n == 4
    then ok (State.play, rest)
    else err (bad_state (pos n))
state_of (negsuc n) rest = err (bad_state (negsuc n))

abbrev pub intent_of : ℤ → Bytes → Result (ClientIntent × Bytes)
intent_of (pos n) rest =
    if n == 1
    then ok (ClientIntent.status, rest)
    else if n == 2
    then ok (ClientIntent.login, rest)
    else if n == 3
    then ok (ClientIntent.transfer, rest)
    else err (bad_intent (pos n))
intent_of (negsuc n) rest = err (bad_intent (negsuc n))

module _ ⦃c : Crates⦄ where
  -- `Encode::encode` of each type.
  unfoldable pub encode : (t : Ty) → Val t → Result Bytes
  encode boolean b = ok ((if b then 1 else 0) ∷ [])
  encode var_int v = ok (encode_varint v)
  encode string s = encode_string s
  encode raw_bytes bytes = ok bytes
  encode block_pos p = ok (c.put_uint 8 (as_unsigned (256 ^ 8) (to_packed p)))
  encode state s = ok (encode_varint (state_discriminant s))
  encode intent s = ok (encode_varint (intent_discriminant s))
  encode chat message = encode_json (c.chat_to_string message)
  encode status_response response = encode_json (c.status_to_string response)
  encode (uint k) n = ok (c.put_uint k n)
  encode (sint k) z = ok (c.put_uint k (as_unsigned (256 ^ k) z))
  encode (byte_array k) bytes = ok bytes
  encode (vec t) xs =
      ensure (leb (length xs) i32_max) too_long (do
        body ← encode_elements (encode t) xs
        ok (encode_varint (from_usize (length xs)) ++ body))
  encode (option t) none = ok (0 ∷ [])
  encode (option t) (some x) = do body ← encode t x; ok (1 ∷ body)
  encode end done = ok []
  encode (field name t rest) (v, vs) = do
    first ← encode t v
    others ← encode rest vs
    ok (first ++ others)

  -- `read_u{8 k}::<BigEndian>`.
  unfoldable pub read_uint : ℕ → Bytes → Result (ℕ × Bytes)
  unfolding read_exact
  read_uint k bytes = do (taken, rest) ← read_exact k bytes; ok (c.get_uint k taken, rest)

  -- `Option::decode`, after its flag is read.
  abbrev pub decode_option :
      {A : Type 0} → (Bytes → Result (A × Bytes)) → Bool → Bytes → Result (Option A × Bytes)
  decode_option read true bytes = do (x, rest) ← read bytes; ok (some x, rest)
  decode_option read false bytes = ok (none, bytes)

  abbrev pub read_bool : Bytes → Result (Bool × Bytes)
  read_bool [] = err unexpected_eof
  read_bool (n ∷ rest) = decode_bool n rest

  -- `Decode::decode` of each type, with what is left of the reader.
  unfoldable pub decode : (t : Ty) → Bytes → Result (Val t × Bytes)
  decode boolean bytes = read_bool bytes
  decode var_int bytes = decode_varint bytes
  decode string bytes = decode_string bytes
  decode raw_bytes bytes = ok (bytes, [])
  decode block_pos bytes = do
    (n, rest) ← read_uint 8 bytes
    ok (from_packed (as_signed (256 ^ 8) n), rest)
  decode state bytes = do (v, rest) ← decode_varint bytes; state_of v rest
  decode intent bytes = do (v, rest) ← decode_varint bytes; intent_of v rest
  decode chat bytes = do (s, rest) ← decode_string bytes; from_json (c.chat_from_str s) rest
  decode status_response bytes = do
    (s, rest) ← decode_string bytes
    from_json (c.status_from_str s) rest
  decode (uint k) bytes = read_uint k bytes
  decode (sint k) bytes = do (n, rest) ← read_uint k bytes; ok (as_signed (256 ^ k) n, rest)
  decode (byte_array k) bytes = read_exact k bytes
  decode (vec t) bytes = do
    (declared, rest) ← decode_varint bytes
    n ← checked_length declared
    decode_elements (decode t) n rest
  decode (option t) bytes = do
    (present, rest) ← read_bool bytes
    decode_option (decode t) present rest
  decode end bytes = ok (tt, bytes)
  decode (field name t rest) bytes = do
    (v, bytes') ← decode t bytes
    (vs, bytes'') ← decode rest bytes'
    ok ((v, vs), bytes'')
