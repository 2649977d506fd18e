-- ===== src/Education/Program.antt =====
-- The graph of a program's milestones: `validate_graph` and `milestones` of `EducationProgram`
-- (src/axcalib/schemas/education.py).
pub mod Sorting
pub mod Order
pub mod Prerequisites
pub mod Identity
use axcalib.Prelude.{
  ℕ, String, Bool, true, false, not, ◌&&◌, ◌||◌, Option, none, some, List, [], ◌∷◌, ◌++◌, map, all,
  ltb, nat_beq, ◌==◌, string_eq, if◌then◌else◌,
}
use axcalib.Education.Schema.{
  MilestoneSpec, ProgramLevel, EducationProgram, unique_texts, unique_nats, milestone_ok,
}
use axcalib.Education.Program.Sorting.{sorted_by}

-- The sequence of a level and of a milestone in it, compared as tuples.
abbrev pub Position : Type 0
Position = ℕ × ℕ

abbrev pub precedes : Position → Position → Bool
precedes (a, b) (c, d) = ltb a c || (nat_beq a c && ltb b d)

-- A milestone with its level and its position.
pub record Placed : Type 0 where
  pub level_id : String
  pub position : Position
  pub milestone : MilestoneSpec

abbrev pub placed_in : ProgramLevel → List MilestoneSpec → List Placed
placed_in l [] = []
placed_in l (m ∷ ms) =
    record { level_id = l.level_id; position = (l.sequence, m.sequence); milestone = m }
    ∷ placed_in l ms

-- The milestones level by level, as the source writes them.
abbrev pub written : List ProgramLevel → List Placed
written [] = []
written (l ∷ ls) = placed_in l l.milestones ++ written ls

-- `positions.get(milestone_id)`
abbrev pub position_of : String → List Placed → Option Position
position_of id [] = none
position_of id (p ∷ ps) =
    if p.milestone.milestone_id == id then some p.position else position_of id ps

abbrev pub prior_ok : Option Position → Position → Bool
prior_ok none current = false
prior_ok (some prior) current = precedes prior current

abbrev pub prerequisites_ok : List Placed → Placed → Bool
prerequisites_ok all_ p =
    all (λ k. prior_ok (position_of k all_) p.position) p.milestone.prerequisites

abbrev pub ids : List Placed → List String
ids ps = map (λ (p : Placed). p.milestone.milestone_id) ps

-- `validate_graph`, each of whose failures is a `ValueError`.
unfoldable pub graph_ok : EducationProgram → Bool
graph_ok p =
    unique_texts (map (λ (l : ProgramLevel). l.level_id) p.levels)
    && (unique_nats (map (λ (l : ProgramLevel). l.sequence) p.levels)
        && (all
              (λ (l : ProgramLevel).
                unique_nats (map (λ (m : MilestoneSpec). m.sequence) l.milestones))
              p.levels
            && (unique_texts (ids (written p.levels))
                && all (prerequisites_ok (written p.levels)) (written p.levels))))

-- The whole of a program's validation.
unfoldable pub program_ok : EducationProgram → Bool
program_ok p = all (λ (q : Placed). milestone_ok q.milestone) (written p.levels) && graph_ok p

abbrev pub level_sorted : ProgramLevel → List Placed
level_sorted l = placed_in l (sorted_by (λ (m : MilestoneSpec). m.sequence) l.milestones)

abbrev pub concat_levels : List ProgramLevel → List Placed
concat_levels [] = []
concat_levels (l ∷ ls) = level_sorted l ++ concat_levels ls

-- `EducationProgram.milestones`
unfoldable pub milestones : EducationProgram → List Placed
unfolding sorted_by
milestones p = concat_levels (sorted_by (λ (l : ProgramLevel). l.sequence) p.levels)
