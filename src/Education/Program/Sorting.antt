-- ===== src/Education/Program/Sorting.antt =====
-- `sorted(values, key=...)` by a number: a stable sort.
use axcalib.Prelude.{
  ℕ, ◌<◌, ◌≡◌, Bool, true, false, ◌||◌, List, [], ◌∷◌, map, any, arith, leb, nat_beq, All,
  if◌then◌else◌, Bool-cases, inl, inr,
}
use axcalib.Education.Schema.{nat_in, unique_nats}

module _ {ℓ} {A : Type ℓ} (key : A → ℕ) where
  unfoldable pub insert_by : A → List A → List A
  insert_by x [] = x ∷ []
  insert_by x (y ∷ ys) = if leb (key x) (key y) then x ∷ y ∷ ys else y ∷ insert_by x ys

  unfoldable pub sorted_by : List A → List A
  unfolding insert_by
  sorted_by [] = []
  sorted_by (x ∷ xs) = insert_by x (sorted_by xs)

  -- A sort keeps what holds of each value, and what some value passes.
  insert_by-All {κ} :
      (P : A → Type κ) (x : A) (xs : List A) → P x → All P xs → All P (insert_by x xs)
  unfolding insert_by
  insert_by-All P x [] p a = (p, tt)
  insert_by-All P x (y ∷ ys) p a = elim (Bool-cases (leb (key x) (key y))) [
    | inl e ↦ rw e (p, a)
    | inr e ↦ rw e (a.0, insert_by-All P x ys p a.1)
  ]

  pub sorted_by-All {κ} : (P : A → Type κ) (xs : List A) → All P xs → All P (sorted_by xs)
  unfolding sorted_by
  sorted_by-All P [] a = tt
  sorted_by-All P (x ∷ xs) a = insert_by-All P x (sorted_by xs) a.0 (sorted_by-All P xs a.1)

  insert_by-any : (q : A → Bool) (x : A) (xs : List A) → any q (insert_by x xs) ≡ (q x || any q xs)
  unfolding insert_by
  insert_by-any q x [] = ground arith
  insert_by-any q x (y ∷ ys) = ground (arith, insert_by-any q x ys)

  pub sorted_by-any : (q : A → Bool) (xs : List A) → any q (sorted_by xs) ≡ any q xs
  unfolding sorted_by
  sorted_by-any q [] = ground arith
  sorted_by-any q (x ∷ xs) = ground (arith, insert_by-any q x (sorted_by xs), sorted_by-any q xs)

  -- Strictly increasing keys.
  abbrev pub IsIncreasing : List A → Type 0
  IsIncreasing [] = Unit
  IsIncreasing (x ∷ xs) = All (λ y. key x < key y) xs × IsIncreasing xs

  above : (a b : ℕ) (ys : List A) → a < b → All (λ y. b < key y) ys → All (λ y. a < key y) ys
  above a b [] h l = tt
  above a b (y ∷ ys) h l = (omega arith, above a b ys h l.1)

  insert_by-IsIncreasing :
      (x : A) (xs : List A)
      → All (λ y. nat_beq (key y) (key x) ≡ false) xs
      → IsIncreasing xs
      → IsIncreasing (insert_by x xs)
  unfolding insert_by
  insert_by-IsIncreasing x [] d i = (tt, tt)
  insert_by-IsIncreasing x (y ∷ ys) d i = elim (Bool-cases (leb (key x) (key y))) [
    | inl e ↦
        let less : key x < key y = ground (arith, d.0) in
        rw e ((less, above (key x) (key y) ys less i.0), i)
    | inr e ↦ rw e (
      insert_by-All (λ z. key y < key z) x ys (ground arith) i.0,
      insert_by-IsIncreasing x ys d.1 i.1,
    )
  ]

  not_in-All :
      (n : ℕ) (xs : List A)
      → nat_in n (map key xs) ≡ false
      → All (λ y. nat_beq (key y) n ≡ false) xs
  not_in-All n [] h = tt
  not_in-All n (x ∷ xs) h = (ground arith, not_in-All n xs (ground arith))

  -- Distinct keys are sorted into strictly increasing ones.
  pub sorted_by-IsIncreasing :
      (xs : List A) → unique_nats (map key xs) ≡ true → IsIncreasing (sorted_by xs)
  unfolding sorted_by
  sorted_by-IsIncreasing [] u = tt
  sorted_by-IsIncreasing (x ∷ xs) u =
      insert_by-IsIncreasing x (sorted_by xs)
        (sorted_by-All (λ y. nat_beq (key y) (key x) ≡ false) xs
          (not_in-All (key x) xs (ground arith)))
        (sorted_by-IsIncreasing xs (ground arith))
