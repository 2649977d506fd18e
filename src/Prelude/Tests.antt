-- ===== src/Prelude/Tests.antt =====
-- Boolean tests, the conditional, and `==` on numbers, texts and optional values.
use Prim.Native.Nat.{ℕ, compare, Ordering}
use Prim.Native.String.{String}
use mathlib.Core.Path.{◌≡◌, refl, ap}
use mathlib.Core.Logic.{◌↔◌, ◌⊎◌, inl, inr}
use mathlib.Core.Bool.{Bool, true, false, not, ◌&&◌}
use mathlib.Core.Option.{Option, none, some}
use mathlib.Core.List.{List, [], ◌∷◌}
use native.Mathlib.Omega.{arith}
use text.Mathlib.Text.{◌==◌ as str_eq}
use text.Mathlib.TextEquality.{eq_iff}

abbrev pub ltb : ℕ → ℕ → Bool
ltb a b = elim (compare a b) [ Ordering.lt ↦ true | _ ↦ false ]

abbrev pub leb : ℕ → ℕ → Bool
leb a b = elim (compare a b) [ Ordering.gt ↦ false | _ ↦ true ]

abbrev pub nat_beq : ℕ → ℕ → Bool
nat_beq a b = elim (compare a b) [ Ordering.eq ↦ true | _ ↦ false ]

infix 1 if◌then◌else◌
abbrev pub if◌then◌else◌ {ℓ} : {A : Type ℓ} → Bool → A → A → A
if true then x else y = x
if false then x else y = y

pub nat_beq_iff : (a b : ℕ) → (nat_beq a b ≡ true) ↔ (a ≡ b)
nat_beq_iff a b = ground arith

-- Equality of the values that the source compares by `==` and `!=`.
pub record Eq {ℓ} (A : Type ℓ) : Type ℓ where
  pub beq : (left right : A) → Bool
  pub beq_iff : (left right : A) → (beq left right ≡ true) ↔ (left ≡ right)

abbrev pub option_beq {ℓ} : {A : Type ℓ} → (A → A → Bool) → Option A → Option A → Bool
option_beq f none none = true
option_beq f none (some b) = false
option_beq f (some a) none = false
option_beq f (some a) (some b) = f a b

pub option_beq_iff {ℓ} :
    {A : Type ℓ} (e : Eq A) (a b : Option A) → (option_beq e.beq a b ≡ true) ↔ (a ≡ b)
option_beq_iff e none none = ((λ _. refl), (λ _. refl))
option_beq_iff e none (some b) = ((λ h. cc), (λ h. cc))
option_beq_iff e (some a) none = ((λ h. cc), (λ h. cc))
option_beq_iff e (some a) (some b) =
    ((λ h. ap some ((e.beq_iff a b).0 h)), (λ h. ground (arith, (e.beq_iff a b).1)))

instance abbrev pub option_eq {ℓ} : {A : Type ℓ} ⦃e : Eq A⦄ → Eq (Option A)
option_eq ⦃e⦄ = record { beq = option_beq e.beq; beq_iff = option_beq_iff e }

instance abbrev pub nat_eq : Eq ℕ
nat_eq = record { beq = nat_beq; beq_iff = nat_beq_iff }

abbrev pub list_beq {ℓ} : {A : Type ℓ} → (A → A → Bool) → List A → List A → Bool
list_beq f [] [] = true
list_beq f [] (b ∷ bs) = false
list_beq f (a ∷ as') [] = false
list_beq f (a ∷ as') (b ∷ bs) = f a b && list_beq f as' bs

pub list_beq_iff {ℓ} :
    {A : Type ℓ} (e : Eq A) (as' bs : List A) → (list_beq e.beq as' bs ≡ true) ↔ (as' ≡ bs)
list_beq_iff e [] [] = ((λ _. refl), (λ _. refl))
list_beq_iff e [] (b ∷ bs) = ((λ h. cc), (λ h. cc))
list_beq_iff e (a ∷ as') [] = ((λ h. cc), (λ h. cc))
list_beq_iff e (a ∷ as') (b ∷ bs) = (
  (λ h. ground (arith, e.beq_iff a b, list_beq_iff e as' bs)),
  (λ h. ground (arith, e.beq_iff a b, list_beq_iff e as' bs)),
)

instance abbrev pub list_eq {ℓ} : {A : Type ℓ} ⦃e : Eq A⦄ → Eq (List A)
list_eq ⦃e⦄ = record { beq = list_beq e.beq; beq_iff = list_beq_iff e }

instance abbrev pub string_eq : Eq String
string_eq = record { beq = str_eq; beq_iff = eq_iff }

-- A value compared with itself.
pub ==-refl {ℓ} : {A : Type ℓ} (e : Eq A) (a : A) → e.beq a a ≡ true
==-refl e a = (e.beq_iff a a).1 refl

-- `==` of the source, by the instance for the values' type.
infix 50 ◌==◌
abbrev pub ◌==◌ {ℓ} : {A : Type ℓ} ⦃e : Eq A⦄ → A → A → Bool
◌==◌ ⦃e⦄ = e.beq

-- `value or None` on an optional value, and tests of presence.
abbrev pub is_some {ℓ} : {A : Type ℓ} → Option A → Bool
is_some none = false
is_some (some a) = true

abbrev pub is_none {ℓ} : {A : Type ℓ} → Option A → Bool
is_none none = true
is_none (some a) = false

-- The truth value of an optional text: present and not empty.
abbrev pub has_text : Option String → Bool
has_text none = false
has_text (some s) = not (str_eq s "")

-- To split on a computed value and keep the equation.
pub Bool-cases : (b : Bool) → (b ≡ true) ⊎ (b ≡ false)
Bool-cases true = inl refl
Bool-cases false = inr refl

pub Option-cases {ℓ} : {A : Type ℓ} (o : Option A) → (o ≡ none) ⊎ ((a : A) × (o ≡ some a))
Option-cases none = inl refl
Option-cases (some a) = inr (a, refl)
