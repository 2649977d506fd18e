-- ===== src/Education/Program/Identity.antt =====
-- How often `milestones` lists a milestone (src/axcalib/schemas/education.py).
use axcalib.Prelude.{
  ℕ, ◌+◌, ◌≤◌, String, ◌≡◌, refl, sym, ◌∙◌, true, List, [], ◌∷◌, ◌++◌, arith, leb, eq_iff, eq_refl,
  ◌==◌, string_eq, if◌then◌else◌,
}
use axcalib.Education.Schema.{MilestoneSpec, ProgramLevel, EducationProgram, text_in, unique_texts}
use axcalib.Education.Program.Sorting.{sorted_by, insert_by}
use axcalib.Education.Program.{
  Placed, placed_in, written, ids, graph_ok, concat_levels, level_sorted, milestones,
}

module _ {A : Type 0} where
  abbrev sum : (A → ℕ) → List A → ℕ
  sum f [] = 0
  sum f (x ∷ xs) = f x + sum f xs

  insert_by-sum :
      (key f : A → ℕ) (x : A) (xs : List A) → sum f (insert_by key x xs) ≡ f x + sum f xs
  unfolding insert_by
  insert_by-sum key f x [] = refl
  insert_by-sum key f x (y ∷ ys) = ground (arith, insert_by-sum key f x ys)

  sorted_by-sum : (key f : A → ℕ) (xs : List A) → sum f (sorted_by key xs) ≡ sum f xs
  unfolding sorted_by
  sorted_by-sum key f [] = refl
  sorted_by-sum key f (x ∷ xs) =
      omega (arith, insert_by-sum key f x (sorted_by key xs), sorted_by-sum key f xs)

-- How often an ID occurs.
abbrev count : String → List String → ℕ
count k [] = 0
count k (x ∷ xs) = (if x == k then 1 else 0) + count k xs

abbrev one : String → MilestoneSpec → ℕ
one k m = if m.milestone_id == k then 1 else 0

count-append :
    (k : String) (ps qs : List Placed)
    → count k (ids (ps ++ qs)) ≡ count k (ids ps) + count k (ids qs)
count-append k [] qs = omega arith
count-append k (p ∷ ps) qs = omega (arith, count-append k ps qs)

count-placed_in :
    (k : String) (l : ProgramLevel) (ms : List MilestoneSpec)
    → count k (ids (placed_in l ms)) ≡ sum (one k) ms
count-placed_in k l [] = refl
count-placed_in k l (m ∷ ms) = omega (arith, count-placed_in k l ms)

abbrev in_level : String → ProgramLevel → ℕ
in_level k l = sum (one k) l.milestones

count-written :
    (k : String) (ls : List ProgramLevel) → count k (ids (written ls)) ≡ sum (in_level k) ls
count-written k [] = refl
count-written k (l ∷ ls) = omega (
  arith,
  count-append k (placed_in l l.milestones) (written ls),
  count-placed_in k l l.milestones,
  count-written k ls,
)

count-concat_levels :
    (k : String) (ls : List ProgramLevel) → count k (ids (concat_levels ls)) ≡ sum (in_level k) ls
count-concat_levels k [] = refl
count-concat_levels k (l ∷ ls) = omega (
  arith,
  count-append k (level_sorted l) (concat_levels ls),
  count-placed_in k l (sorted_by (λ (m : MilestoneSpec). m.sequence) l.milestones),
  sorted_by-sum (λ (m : MilestoneSpec). m.sequence) (one k) l.milestones,
  count-concat_levels k ls,
)

count-milestones :
    (k : String) (p : EducationProgram)
    → count k (ids (milestones p)) ≡ count k (ids (written p.levels))
unfolding milestones
count-milestones k p =
    count-concat_levels k (sorted_by (λ (l : ProgramLevel). l.sequence) p.levels)
    ∙ sorted_by-sum (λ (l : ProgramLevel). l.sequence) (in_level k) p.levels
    ∙ sym (count-written k p.levels)

text_in-count : (k : String) (xs : List String) → text_in k xs ≡ leb 1 (count k xs)
text_in-count k [] = refl
text_in-count k (x ∷ xs) = ground (arith, text_in-count k xs)

unique-count : (xs : List String) → unique_texts xs ≡ true → (k : String) → count k xs ≤ 1
unique-count [] u k = omega arith
unique-count (x ∷ xs) u k =
    ground (arith, eq_iff x k, text_in-count x xs, unique-count xs (ground arith) k)

count_unique : (xs : List String) → ((k : String) → count k xs ≤ 1) → unique_texts xs ≡ true
count_unique [] c = refl
count_unique (x ∷ xs) c =
    ground (arith, c x, eq_refl x, text_in-count x xs, count_unique xs (λ k. omega (arith, c k)))

pub milestones_unique :
    (p : EducationProgram) → graph_ok p ≡ true → unique_texts (ids (milestones p)) ≡ true
unfolding graph_ok
milestones_unique p h = count_unique (ids (milestones p)) (λ k.
    omega (arith, count-milestones k p, unique-count (ids (written p.levels)) (ground arith) k))
