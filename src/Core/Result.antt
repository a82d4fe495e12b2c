-- ===== src/Core/Result.antt =====
-- `anyhow::Result`: the errors that the code raises, as values, and bytes.
-- An `io::Error` of kind `UnexpectedEof` is told apart by the callers, so it has its own constructor.
use statik_rs.Prelude.{ℕ, ◌<◌, ◌≡◌, ◌≢◌, refl, ap, Bool, true, false, List}
use statik_rs.Prelude.Int.{ℤ}
use statik_rs.Core.State.{State}

pub data Error : Type 0 where
  -- `io::ErrorKind::UnexpectedEof`
  unexpected_eof : Error
  -- statik_core: the codecs
  varint_too_long bad_bool negative_length bad_utf8 too_long json_failed : Error
  bad_state bad_intent : ℤ → Error
  capacity_overflow : Error
  -- the derived packet groups
  no_packet : ℤ → State → Error
  -- statik_server: framing
  frame_length compressed_length zlib_failed write_zero : Error
  -- statik_server: the handlers
  wrong_packet unsupported version_mismatch transfer_rejected unknown_version : Error
  connection_ended : Error
  -- statik_server and the program: the listeners and the shutdown channel
  bind_failed nobody_listens channel_failed : Error

pub data Result {ℓ} (A : Type ℓ) : Type ℓ where
  ok : A → Result A
  err : Error → Result A

infixl 5 ◌>>=◌
abbrev pub ◌>>=◌ {ℓ κ} : {A : Type ℓ} {B : Type κ} → Result A → (A → Result B) → Result B
ok a >>= next = next a
err e >>= next = err e

-- `ensure!(test, error)`.
abbrev pub ensure {ℓ} : {A : Type ℓ} → Bool → Error → Result A → Result A
ensure true e next = next
ensure false e next = err e

abbrev pub Bytes : Type 0
Bytes = List ℕ

abbrev pub IsByte : ℕ → Type 0
IsByte b = b < 256

-- What a successful chain of two steps is made of.
pub >>=-eq-ok {ℓ κ} :
    {A : Type ℓ} {B : Type κ} (m : Result A) (next : A → Result B) (b : B)
    → (m >>= next) ≡ ok b
    → (a : A) × (m ≡ ok a) × (next a ≡ ok b)
>>=-eq-ok (ok a) next b h = (a, refl, h)
>>=-eq-ok (err e) next b h = cc

-- What two equal readings share, and results of different kinds.
module _ {A : Type 0} where
  abbrev value_of : A → Result (A × Bytes) → A
  value_of other (ok p) = p.0
  value_of other (err e) = other

  abbrev rest_of : Bytes → Result (A × Bytes) → Bytes
  rest_of other (ok p) = p.1
  rest_of other (err e) = other

  pub ok_value :
      {a b : A} {r s : Bytes} → ◌≡◌ {A = Result (A × Bytes)} (ok (a, r)) (ok (b, s)) → a ≡ b
  ok_value {a} e = ap (value_of a) e

  pub ok_rest :
      {a b : A} {r s : Bytes} → ◌≡◌ {A = Result (A × Bytes)} (ok (a, r)) (ok (b, s)) → r ≡ s
  ok_rest {r} e = ap (rest_of r) e

  pub err-ne-ok : {e : Error} {a : A} → err e ≢ ok a
  err-ne-ok h = cc

  pub ok-ne-err : {e : Error} {a : A} → ok a ≢ err e
  ok-ne-err h = cc

pub ok_inj : {A : Type 0} {a b : A} → ok a ≡ ok b → a ≡ b
ok_inj h = cc
