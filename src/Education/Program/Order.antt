-- ===== src/Education/Program/Order.antt =====
-- The order in which `milestones` lists a program's milestones (src/axcalib/schemas/education.py).
use axcalib.Prelude.{ℕ, ◌<◌, ◌≡◌, refl, true, List, [], ◌∷◌, ◌++◌, map, All, arith, string_eq}
use axcalib.Education.Schema.{MilestoneSpec, ProgramLevel, unique_nats}
use axcalib.Education.Program.Sorting.{sorted_by-IsIncreasing, IsIncreasing}
use axcalib.Education.Program.{precedes, Placed, placed_in, concat_levels, level_sorted}

abbrev pub Ahead : Placed → Placed → Type 0
Ahead p q = precedes p.position q.position ≡ true

abbrev pub IsOrdered : List Placed → Type 0
IsOrdered [] = Unit
IsOrdered (p ∷ ps) = All (Ahead p) ps × IsOrdered ps

All-append : (P : Placed → Type 0) (xs ys : List Placed) → All P xs → All P ys → All P (xs ++ ys)
All-append P [] ys a b = b
All-append P (x ∷ xs) ys a b = (a.0, All-append P xs ys a.1 b)

append-IsOrdered :
    (xs ys : List Placed)
    → IsOrdered xs
    → IsOrdered ys
    → All (λ x. All (Ahead x) ys) xs
    → IsOrdered (xs ++ ys)
append-IsOrdered [] ys a b c = b
append-IsOrdered (x ∷ xs) ys a b c =
    (All-append (Ahead x) xs ys a.0 c.0, append-IsOrdered xs ys a.1 b c.1)

abbrev pub place : ProgramLevel → MilestoneSpec → Placed
place l m = record { level_id = l.level_id; position = (l.sequence, m.sequence); milestone = m }

Ahead-in_level :
    (l : ProgramLevel) (m : MilestoneSpec) (ms : List MilestoneSpec)
    → All (λ (y : MilestoneSpec). m.sequence < y.sequence) ms
    → All (Ahead (place l m)) (placed_in l ms)
Ahead-in_level l m [] h = tt
Ahead-in_level l m (y ∷ ms) h = (ground (arith, h.0), Ahead-in_level l m ms h.1)

placed_in-IsOrdered :
    (l : ProgramLevel) (ms : List MilestoneSpec)
    → IsIncreasing (λ (m : MilestoneSpec). m.sequence) ms
    → IsOrdered (placed_in l ms)
placed_in-IsOrdered l [] h = tt
placed_in-IsOrdered l (m ∷ ms) h = (Ahead-in_level l m ms h.0, placed_in-IsOrdered l ms h.1)

-- A milestone of one level is ahead of those of a later one.
Ahead-of_level :
    (p : Placed) (n : ℕ) (l : ProgramLevel) (ms : List MilestoneSpec)
    → p.position.0 ≡ n
    → n < l.sequence
    → All (Ahead p) (placed_in l ms)
Ahead-of_level p n l [] e h = tt
Ahead-of_level p n l (m ∷ ms) e h = (ground arith, Ahead-of_level p n l ms e h)

Ahead-of_levels :
    (p : Placed) (n : ℕ) (ls : List ProgramLevel)
    → p.position.0 ≡ n
    → All (λ (l : ProgramLevel). n < l.sequence) ls
    → All (Ahead p) (concat_levels ls)
Ahead-of_levels p n [] e h = tt
Ahead-of_levels p n (l ∷ ls) e h =
    All-append (Ahead p) (level_sorted l) (concat_levels ls) (Ahead-of_level p n l _ e h.0)
      (Ahead-of_levels p n ls e h.1)

level-Ahead :
    (l : ProgramLevel) (ls : List ProgramLevel) (ms : List MilestoneSpec)
    → All (λ (k : ProgramLevel). l.sequence < k.sequence) ls
    → All (λ x. All (Ahead x) (concat_levels ls)) (placed_in l ms)
level-Ahead l ls [] h = tt
level-Ahead l ls (m ∷ ms) h =
    (Ahead-of_levels (place l m) l.sequence ls refl h, level-Ahead l ls ms h)

abbrev pub IsDistinct : ProgramLevel → Type 0
IsDistinct l = unique_nats (map (λ (m : MilestoneSpec). m.sequence) l.milestones) ≡ true

pub concat_levels-IsOrdered :
    (ls : List ProgramLevel)
    → IsIncreasing (λ (l : ProgramLevel). l.sequence) ls
    → All IsDistinct ls
    → IsOrdered (concat_levels ls)
concat_levels-IsOrdered [] i d = tt
concat_levels-IsOrdered (l ∷ ls) i d =
    append-IsOrdered (level_sorted l) (concat_levels ls)
      (placed_in-IsOrdered l _
        (sorted_by-IsIncreasing (λ (m : MilestoneSpec). m.sequence) l.milestones d.0))
      (concat_levels-IsOrdered ls i.1 d.1) (level-Ahead l ls _ i.0)
