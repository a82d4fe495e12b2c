-- ===== src/Server/Exec.antt =====
-- Methods on `&mut self` that return a `Result`: what was done before an error stays done, so the
-- state comes back beside the error too.
use statik_rs.Core.Result.{Error, Result, ok, err}

abbrev pub Exec : Type 0 → Type 0 → Type 0
Exec S A = S → Result A × S

abbrev pub pure : {S A : Type 0} → A → Exec S A
pure a s = (ok a, s)

abbrev pub fail : {S A : Type 0} → Error → Exec S A
fail e s = (err e, s)

abbrev pub gets : {S A : Type 0} → (S → A) → Exec S A
gets f s = (ok (f s), s)

abbrev pub modify : {S : Type 0} → (S → S) → Exec S (Unit {0})
modify f s = (ok tt, f s)

abbrev pub lift : {S A : Type 0} → Result A → Exec S A
lift r s = (r, s)

abbrev pub continue : {S A B : Type 0} → Result A → (A → Exec S B) → Exec S B
continue (ok a) next s = next a s
continue (err e) next s = (err e, s)

infixl 5 ◌>>=◌ ◌>>◌
abbrev pub ◌>>=◌ : {S A B : Type 0} → Exec S A → (A → Exec S B) → Exec S B
◌>>=◌ m next s = let (r, s') = m s in continue r next s'

abbrev pub ◌>>◌ : {S A B : Type 0} → Exec S A → Exec S B → Exec S B
m >> n = m >>= λ _. n

-- The states that a method leaves, with a result or with an error, are related to the one before.
abbrev pub Leads : {S A : Type 0} → (S → S → Type 0) → Exec S A → Type 0
Leads {S} R m = (s : S) → R s (m s).1

Leads-continue :
    {S A B : Type 0} (R : S → S → Type 0)
    → ((x y z : S) → R x y → R y z → R x z)
    → (r : Result A) (next : A → Exec S B) → ((a : A) → Leads R (next a))
    → (s s' : S) → R s s'
    → R s (continue r next s').1
Leads-continue R trans (ok a) next h s s' first = trans s s' _ first (h a s')
Leads-continue R trans (err e) next h s s' first = first

pub Leads->>= :
    {S A B : Type 0} (R : S → S → Type 0)
    → ((x y z : S) → R x y → R y z → R x z)
    → (m : Exec S A) (next : A → Exec S B) → Leads R m
    → ((a : A) → Leads R (next a))
    → Leads R (m >>= next)
Leads->>= R trans m next first h s =
    let (r, s') = m s in Leads-continue R trans r next h s s' (first s)
