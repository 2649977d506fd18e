-- ===== src/Education/Program/Prerequisites.antt =====
-- Where `milestones` lists the prerequisites of a milestone (src/axcalib/schemas/education.py).
use axcalib.Prelude.{
  String, ◌≡◌, refl, sym, ◌∙◌, subst, Bool, true, false, not, ◌&&◌, ◌||◌, Option, none, some, List,
  [], ◌∷◌, ◌++◌, any, all, All, arith, nat_beq, ◌==◌, string_eq, Bool-cases, inl, inr,
}
use axcalib.Education.Schema.{MilestoneSpec, ProgramLevel, EducationProgram, text_in}
use axcalib.Education.Program.Sorting.{
  sorted_by, sorted_by-All, sorted_by-any, sorted_by-IsIncreasing,
}
use axcalib.Education.Program.Order.{Ahead, IsOrdered, IsDistinct, place, concat_levels-IsOrdered}
use axcalib.Education.Program.{
  Position, precedes, Placed, placed_in, written, position_of, prior_ok, prerequisites_ok, graph_ok,
  concat_levels, level_sorted, milestones,
}

-- Every prerequisite is among the milestones before.
abbrev pub in_order : List String → List Placed → Bool
in_order seen [] = true
in_order seen (p ∷ ps) =
    all (λ k. text_in k seen) p.milestone.prerequisites
    && in_order (p.milestone.milestone_id ∷ seen) ps

-- Some level has a milestone that passes the test.
in_levels : (Placed → Bool) → List ProgramLevel → Bool
in_levels t ls = any (λ l. any (λ m. t (place l m)) l.milestones) ls

module _ {A : Type 0} where
  any-append : (t : A → Bool) (xs ys : List A) → any t (xs ++ ys) ≡ (any t xs || any t ys)
  any-append t [] ys = ground arith
  any-append t (x ∷ xs) ys = ground (arith, any-append t xs ys)

any-placed_in :
    (t : Placed → Bool) (l : ProgramLevel) (ms : List MilestoneSpec)
    → any t (placed_in l ms) ≡ any (λ m. t (place l m)) ms
any-placed_in t l [] = refl
any-placed_in t l (m ∷ ms) = ground (arith, any-placed_in t l ms)

any-written : (t : Placed → Bool) (ls : List ProgramLevel) → any t (written ls) ≡ in_levels t ls
unfolding in_levels
any-written t [] = refl
any-written t (l ∷ ls) = ground (
  arith,
  any-append t (placed_in l l.milestones) (written ls),
  any-placed_in t l l.milestones,
  any-written t ls,
)

any-concat_levels :
    (t : Placed → Bool) (ls : List ProgramLevel) → any t (concat_levels ls) ≡ in_levels t ls
unfolding in_levels
any-concat_levels t [] = refl
any-concat_levels t (l ∷ ls) = ground (
  arith,
  any-append t (level_sorted l) (concat_levels ls),
  any-placed_in t l (sorted_by (λ (m : MilestoneSpec). m.sequence) l.milestones),
  sorted_by-any (λ (m : MilestoneSpec). m.sequence) (λ m. t (place l m)) l.milestones,
  any-concat_levels t ls,
)

-- `milestones` lists what the program has, and nothing else.
pub any-milestones :
    (t : Placed → Bool) (p : EducationProgram) → any t (milestones p) ≡ any t (written p.levels)
unfolding milestones in_levels
any-milestones t p =
    any-concat_levels t (sorted_by (λ (l : ProgramLevel). l.sequence) p.levels)
    ∙ sorted_by-any (λ (l : ProgramLevel). l.sequence) (λ l. any (λ m. t (place l m)) l.milestones)
        p.levels
    ∙ sym (any-written t p.levels)

abbrev same_position : Position → Position → Bool
same_position (a, b) (c, d) = nat_beq a c && nat_beq b d

-- The milestone with an ID and a position.
abbrev stands_at : String → Position → Placed → Bool
stands_at k q p = p.milestone.milestone_id == k && same_position p.position q

position_of-any :
    (k : String) (q : Position) (ps : List Placed)
    → position_of k ps ≡ some q
    → any (stands_at k q) ps ≡ true
position_of-any k q [] h = absurd (cc h)
position_of-any k q (p ∷ ps) h = elim (Bool-cases (p.milestone.milestone_id == k)) [
  | inl e ↦
      let same : some p.position ≡ some q = rw e at h in
      let same' : p.position ≡ q = cc (same) in
      rw e (
        subst (λ r. (same_position p.position r || any (stands_at k r) ps) ≡ true) same'
          (ground arith))
  | inr e ↦ rw e (position_of-any k q ps (rw e at h))
]

-- What stands at an earlier position is not among milestones ahead of which `p` is.
not_behind :
    (k : String) (q : Position) (p : Placed) (ps : List Placed)
    → precedes q p.position ≡ true
    → All (Ahead p) ps
    → any (stands_at k q) ps ≡ false
not_behind k q p [] e a = refl
not_behind k q p (x ∷ ps) e a = ground (arith, a.0, not_behind k q p ps e a.1)

prior_ok-cases :
    (o : Option Position) (current : Position)
    → prior_ok o current ≡ true
    → (q : Position) × (o ≡ some q) × (precedes q current ≡ true)
prior_ok-cases none current h = absurd (cc h)
prior_ok-cases (some q) current h = (q, refl, h)

-- All the milestones of `every` are seen or still to come.
abbrev IsCovered : List Placed → List String → List Placed → Type 0
IsCovered every seen ps =
    (k : String) (q : Position)
    → any (stands_at k q) every ≡ true
    → (text_in k seen || any (stands_at k q) ps) ≡ true

seen_before :
    (every : List Placed) (seen : List String) (p : Placed) (ps : List Placed) (ks : List String)
    → IsCovered every seen (p ∷ ps)
    → All (Ahead p) ps
    → all (λ k. prior_ok (position_of k every) p.position) ks ≡ true
    → all (λ k. text_in k seen) ks ≡ true
seen_before every seen p ps [] c a h = refl
seen_before every seen p ps (k ∷ ks) c a h =
    let (q, found, before) = prior_ok-cases (position_of k every) p.position (ground arith) in
    ground (
      arith,
      c k q (position_of-any k q every found),
      not_behind k q p ps before a,
      seen_before every seen p ps ks c a,
    )

IsCovered-step :
    (every : List Placed) (seen : List String) (p : Placed) (ps : List Placed)
    → IsCovered every seen (p ∷ ps)
    → IsCovered every (p.milestone.milestone_id ∷ seen) ps
IsCovered-step every seen p ps c k q h = ground (arith, c k q h)

IsOrdered-in_order :
    (every : List Placed) (seen : List String) (ps : List Placed)
    → IsOrdered ps
    → IsCovered every seen ps
    → All (λ p. prerequisites_ok every p ≡ true) ps
    → in_order seen ps ≡ true
IsOrdered-in_order every seen [] o c r = refl
IsOrdered-in_order every seen (p ∷ ps) o c r = ground (
  arith,
  seen_before every seen p ps p.milestone.prerequisites c o.0 r.0,
  IsOrdered-in_order every (p.milestone.milestone_id ∷ seen) ps o.1
      (IsCovered-step every seen p ps c) r.1,
)

module _ {A : Type 0} where
  all-All : (f : A → Bool) (xs : List A) → all f xs ≡ true → All (λ x. f x ≡ true) xs
  all-All f [] h = tt
  all-All f (x ∷ xs) h = (ground arith, all-All f xs (ground arith))

  all-any : (f : A → Bool) (xs : List A) → all f xs ≡ true → any (λ x. not (f x)) xs ≡ false
  all-any f [] h = refl
  all-any f (x ∷ xs) h = ground (arith, all-any f xs)

  any-All :
      (f : A → Bool) (xs : List A) → any (λ x. not (f x)) xs ≡ false → All (λ x. f x ≡ true) xs
  any-All f [] h = tt
  any-All f (x ∷ xs) h = (ground arith, any-All f xs (ground arith))

milestones-IsOrdered : (p : EducationProgram) → graph_ok p ≡ true → IsOrdered (milestones p)
unfolding milestones graph_ok
milestones-IsOrdered p h =
    concat_levels-IsOrdered _
      (sorted_by-IsIncreasing (λ (l : ProgramLevel). l.sequence) p.levels (ground arith))
      (sorted_by-All (λ (l : ProgramLevel). l.sequence) IsDistinct p.levels
        (all-All _ p.levels (ground arith)))

milestones-prerequisites :
    (p : EducationProgram)
    → graph_ok p ≡ true
    → All (λ q. prerequisites_ok (written p.levels) q ≡ true) (milestones p)
unfolding graph_ok
milestones-prerequisites p h =
    let every = written p.levels in
    any-All (prerequisites_ok every) (milestones p) (
      any-milestones (λ q. not (prerequisites_ok every q)) p
      ∙ all-any (prerequisites_ok every) every (ground arith))

-- In a program whose graph is accepted, `milestones` lists each milestone behind all of its
-- prerequisites.
pub milestones-in_order :
    (p : EducationProgram) → graph_ok p ≡ true → in_order [] (milestones p) ≡ true
milestones-in_order p h =
    IsOrdered-in_order (written p.levels) [] (milestones p) (milestones-IsOrdered p h)
      (λ k q e. any-milestones (stands_at k q) p ∙ e) (milestones-prerequisites p h)
