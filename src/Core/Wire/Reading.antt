-- ===== src/Core/Wire/Reading.antt =====
-- Readers that do not look beyond what they take, and what the values that they give satisfy.
use mathlib.Core.Path.{subst}
use statik_rs.Prelude.{
  ℕ, zero, suc, ◌≡◌, refl, sym, ap, ◌∙◌, ◌++◌, List, [], ◌∷◌, append_assoc, All,
}
use statik_rs.Prelude.{length, leb, take, drop, Bool-cases, inl, inr, arith, leb→le, le→leb}
use statik_rs.Prelude.{length-append, take-append, drop-append, take-append-drop, length-take}
use statik_rs.Core.Result.{
  Error, Result, ok, err, ◌>>=◌, >>=-eq-ok, ok_inj, ok_value, ok_rest, err-ne-ok, Bytes,
}
use statik_rs.Core.VarInt.Decode.{Took}
use statik_rs.Core.Wire

-- Whenever `read` succeeds it takes some bytes off the front, and it gives the same before any
-- other rest.
abbrev pub IsLocal : {A : Type 0} → (Bytes → Result (A × Bytes)) → Type 0
IsLocal {A} read =
    (bytes : Bytes) (a : A) (rest : Bytes)
    → read bytes ≡ ok (a, rest)
    → (used : Bytes) × Took read bytes a rest used

-- Every value that `read` gives satisfies `P`.
abbrev pub Gives : {A : Type 0} → (A → Type 0) → (Bytes → Result (A × Bytes)) → Type 0
Gives {A} P read = (bytes : Bytes) (a : A) (rest : Bytes) → read bytes ≡ ok (a, rest) → P a

-- One reader after the other.
abbrev pub read_then :
    {A B : Type 0}
    → (Bytes → Result (A × Bytes))
    → (A → Bytes → Result (B × Bytes))
    → Bytes
    → Result (B × Bytes)
read_then read next bytes = read bytes >>= λ p. next p.0 p.1

module _ {A : Type 0} where
  pub ok-IsLocal : (a : A) → IsLocal (λ (bytes : Bytes). ok (a, bytes))
  ok-IsLocal a bytes b rest e =
      let same = ok_inj e in
      ([], (ap (λ (p : A × Bytes). p.1) same, λ more. ap (λ (p : A × Bytes). ok (p.0, more)) same))

  pub err-IsLocal : (x : Error) → IsLocal {A = A} (λ (bytes : Bytes). err x)
  err-IsLocal x bytes a rest e = cc

  pub ok-Gives : (P : A → Type 0) (a : A) → P a → Gives P (λ (bytes : Bytes). ok (a, bytes))
  ok-Gives P a h bytes b rest e = subst P (ok_value e) h

  pub err-Gives : (P : A → Type 0) (x : Error) → Gives P (λ (bytes : Bytes). err x)
  err-Gives P x bytes a rest e = cc

module _ {A B : Type 0} (read : Bytes → Result (A × Bytes))
    (next : A → Bytes → Result (B × Bytes)) where
  pub read_then-IsLocal :
      IsLocal read → ((a : A) → IsLocal (next a)) → IsLocal (read_then read next)
  read_then-IsLocal first second bytes b rest e =
      let (p, e1, e2) = >>=-eq-ok (read bytes) (λ p. next p.0 p.1) (b, rest) e in
      let (used, (split, again)) = first bytes p.0 p.1 e1 in
      let (used', (split', again')) = second p.0 p.1 b rest e2 in
      (
        used ++ used',
        (
          split ∙ ap (λ (l : Bytes). used ++ l) split' ∙ sym (append_assoc used used' rest),
          λ more. rw (append_assoc used used' more, again (used' ++ more)) (again' more),
        ),
      )

  pub read_then-Gives :
      (P : A → Type 0) (Q : B → Type 0)
      → Gives P read
      → ((a : A) → P a → Gives Q (next a))
      → Gives Q (read_then read next)
  read_then-Gives P Q first second bytes b rest e =
      let (p, e1, e2) = >>=-eq-ok (read bytes) (λ p. next p.0 p.1) (b, rest) e in
      second p.0 (first bytes p.0 p.1 e1) p.1 b rest e2

-- The readers that the types are made of.
read_exact-append :
    (k : ℕ) (used rest : Bytes)
    → length used ≡ k
    → Wire.read_exact k (used ++ rest) ≡ ok (used, rest)
unfolding Wire.read_exact
read_exact-append k used rest e =
    rw (← e, le→leb (length used) (length (used ++ rest)) (omega (arith, length-append used rest)))
      (rw (take-append, drop-append))

-- What `read_exact` takes.
pub read_exact_ok :
    (k : ℕ) (bytes a rest : Bytes)
    → Wire.read_exact k bytes ≡ ok (a, rest)
    → (length a ≡ k) × (bytes ≡ a ++ rest)
unfolding Wire.read_exact
read_exact_ok k bytes a rest e = elim (Bool-cases (leb k (length bytes))) [
  | inl enough ↦
      let same : ◌≡◌ {A = Result (Bytes × Bytes)} (ok (take k bytes, drop k bytes)) (ok (a, rest)) =
        rw enough at e in
      (
        ap (λ (l : Bytes). length l) (sym (ok_value same))
            ∙ (omega (arith, length-take k bytes, leb→le k (length bytes) enough)),
        sym (take-append-drop k bytes)
            ∙ ap (λ (l : Bytes). l ++ drop k bytes) (ok_value same)
            ∙ ap (λ (l : Bytes). a ++ l) (ok_rest same),
      )
  | inr short ↦ absurd (err-ne-ok (rw short at e))
]

pub read_exact-IsLocal : (k : ℕ) → IsLocal (Wire.read_exact k)
read_exact-IsLocal k bytes a rest e =
    let (size, split) = read_exact_ok k bytes a rest e in
    (a, (split, λ more. read_exact-append k a more size))

module _ {A : Type 0} (read : Bytes → Result (A × Bytes)) where
  pub decode_elements-IsLocal : IsLocal read → (n : ℕ) → IsLocal (Wire.decode_elements read n)
  unfolding Wire.decode_elements
  decode_elements-IsLocal one zero = ok-IsLocal []
  decode_elements-IsLocal one (suc n) =
      read_then-IsLocal read
        (λ x. read_then (Wire.decode_elements read n) (λ xs rest. ok (x ∷ xs, rest))) one
        λ x.
          read_then-IsLocal (Wire.decode_elements read n) (λ xs rest. ok (x ∷ xs, rest))
            (decode_elements-IsLocal one n) (λ xs. ok-IsLocal (x ∷ xs))

  -- n elements, each as `read` gives them.
  pub decode_elements-Gives :
      (P : A → Type 0)
      → Gives P read
      → (n : ℕ) → Gives (λ (xs : List A). (length xs ≡ n) × All P xs) (Wire.decode_elements read n)
  unfolding Wire.decode_elements
  decode_elements-Gives P one zero = ok-Gives (λ xs. (length xs ≡ 0) × All P xs) [] (refl, tt)
  decode_elements-Gives P one (suc n) =
      read_then-Gives read
        (λ x. read_then (Wire.decode_elements read n) (λ xs rest. ok (x ∷ xs, rest))) P
        (λ xs. (length xs ≡ suc n) × All P xs) one
        λ x good.
          read_then-Gives (Wire.decode_elements read n) (λ xs rest. ok (x ∷ xs, rest))
            (λ xs. (length xs ≡ n) × All P xs) (λ xs. (length xs ≡ suc n) × All P xs)
            (decode_elements-Gives P one n)
            λ xs all.
              ok-Gives (λ ys. (length ys ≡ suc n) × All P ys) (x ∷ xs)
                (omega (arith, all.0), (good, all.1))
