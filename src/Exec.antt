-- ===== src/Exec.antt =====
-- Python methods that change an object or a directory and may raise: a state-passing function
-- whose state comes back beside the error too, since what was written before a raise stays written.
use axcalib.Prelude.{◌≡◌, refl, ◌⊎◌, inl, inr, Bool, true, false}

pub data Result {ℓ} (E A : Type ℓ) : Type ℓ where
  ok : A → Result E A
  err : E → Result E A

abbrev pub Exec {ℓ} : Type ℓ → Type ℓ → Type ℓ → Type ℓ
Exec S E A = S → Result E A × S

module _ {ℓ} {S E A : Type ℓ} where
  abbrev pub pure : A → Exec S E A
  pure a s = (ok a, s)

  abbrev pub raise : E → Exec S E A
  raise e s = (err e, s)

  -- A step that only reads.
  abbrev pub gets : (S → A) → Exec S E A
  gets f s = (ok (f s), s)

  abbrev pub lift : Result E A → Exec S E A
  lift r s = (r, s)

abbrev pub modify {ℓ} : {S E : Type ℓ} → (S → S) → Exec S E (Unit {ℓ})
modify f s = (ok tt, f s)

-- `if test: raise e`
abbrev pub reject_if {ℓ} : {S E : Type ℓ} → Bool → E → Exec S E (Unit {ℓ})
reject_if true e s = (err e, s)
reject_if false e s = (ok tt, s)

module _ {ℓ} {S E A B : Type ℓ} where
  abbrev pub continue : Result E A → (A → Exec S E B) → Exec S E B
  continue (ok a) f s = f a s
  continue (err e) f s = (err e, s)

  infixl 10 ◌>>=◌
  abbrev pub ◌>>=◌ : Exec S E A → (A → Exec S E B) → Exec S E B
  ◌>>=◌ m f s = let (r, s') = m s in continue r f s'

module _ {ℓ} {S E B : Type ℓ} where
  infixl 10 ◌>>◌
  abbrev pub ◌>>◌ : Exec S E (Unit {ℓ}) → Exec S E B → Exec S E B
  m >> k = m >>= λ _. k

abbrev pub is_ok {ℓ} : {E A : Type ℓ} → Result E A → Bool
is_ok (ok a) = true
is_ok (err e) = false

-- To split on a computed result and keep the equation.
pub Result-cases {ℓ} :
    {E A : Type ℓ} (r : Result E A) → ((e : E) × (r ≡ err e)) ⊎ ((a : A) × (r ≡ ok a))
Result-cases (ok a) = inr (a, refl)
Result-cases (err e) = inl (e, refl)
