-- ===== src/Education/Refusal.antt =====
-- Why the education service refuses a call (`EducationProgramError` by its message, the
-- `KeyError` of a missing specification and the `ValidationError` of a decision, in src/axcalib/programs/service.py).
use axcalib.Prelude.{Bool, true, false, ◌≡◌, refl}
use axcalib.Exec.{Result, ok, err}

pub data Refusal : Type 0 where
  not_open not_allowlisted stale_revision not_active unknown_milestone : Refusal
  unknown_progress unknown_requirement not_manual not_score not_project : Refusal
  wrong_role score_range milestone_status no_status_requirement context_mismatch : Refusal
  other_project unbound_project not_waiting empty_rationale no_reopened unknown_reopened : Refusal
  program_changed no_dossier key_error invalid_decision : Refusal

infixl 10 ◌>>=◌
abbrev pub ◌>>=◌ : {E A B : Type 0} → Result E A → (A → Result E B) → Result E B
ok a >>= f = f a
err e >>= f = err e

infixl 10 ◌>>◌
abbrev pub ◌>>◌ : {E B : Type 0} → Result E (Unit {0}) → Result E B → Result E B
m >> k = m >>= λ _. k

-- `if not test: raise EducationProgramError(...)`
abbrev pub require : Bool → Refusal → Result Refusal (Unit {0})
require true e = ok tt
require false e = err e

-- What a block that succeeds went through.
pub bind-ok :
    {E A B : Type 0} (m : Result E A) (f : A → Result E B) (b : B)
    → (m >>= f) ≡ ok b
    → (a : A) × (m ≡ ok a) × (f a ≡ ok b)
bind-ok (ok a) f b h = (a, refl, h)
bind-ok (err e) f b h = absurd (cc h)

pub require-ok :
    {B : Type 0} (test : Bool) (e : Refusal) (k : Result Refusal B) (b : B)
    → (require test e >> k) ≡ ok b
    → (test ≡ true) × (k ≡ ok b)
require-ok true e k b h = (refl, h)
require-ok false e k b h = absurd (cc h)
