-- ===== src/Education/Schema.antt =====
-- The contracts of education programs (src/axcalib/schemas/education.py): programs, milestones and
-- requirements with their validators. Points and scores count a fixed fraction of a point, so that
-- sums are exact; the patterns and lengths of single fields are not modelled.
use axcalib.Prelude.{
  ℕ, ◌+◌, String, Bool, true, false, not, ◌&&◌, List, [], ◌∷◌, map, any, leb, nat_beq, length, ◌==◌,
  string_eq, if◌then◌else◌,
}

pub data ProgramStatus : Type 0 where
  draft offline_reference published retired : ProgramStatus

pub data MilestoneKind : Type 0 where
  learning_activity project_certification assessment : MilestoneKind

-- `Literal["instructor", "mentor", "administrator"]`
pub data ReviewRole : Type 0 where
  instructor mentor administrator : ReviewRole

abbrev pub role_name : ReviewRole → String
role_name instructor = "instructor"
role_name mentor = "mentor"
role_name administrator = "administrator"

pub data RequiredStatus : Type 0 where
  registration_approved completion_accepted : RequiredStatus

-- What tells the three classes of requirements apart.
pub data Condition : Type 0 where
  manual_confirmation : ReviewRole → Condition
  score_at_least : ℕ → ReviewRole → Condition
  project_status : RequiredStatus → Condition

-- `RequirementSpec`
pub record Requirement : Type 0 where
  pub requirement_id : String
  pub title : String
  pub points : ℕ
  pub condition : Condition

abbrev pub is_project_status : Condition → Bool
is_project_status (project_status s) = true
is_project_status _ = false

-- `MilestoneCompletionRule`; the threshold stands with the mode that needs it (`validate_threshold`).
pub data CompletionRule : Type 0 where
  all_required : CompletionRule
  minimum_points : ℕ → CompletionRule

pub record MilestoneSpec : Type 0 where
  pub milestone_id : String
  pub title : String
  pub sequence : ℕ
  pub kind : MilestoneKind
  pub prerequisites : List String
  pub pipeline_id : String
  pub pipeline_version : String
  pub requirements : List Requirement
  pub completion_rule : CompletionRule
  pub required_for_program_completion : Bool

pub record ProgramLevel : Type 0 where
  pub level_id : String
  pub title : String
  pub sequence : ℕ
  pub milestones : List MilestoneSpec

pub record EducationProgram : Type 0 where
  pub program_id : String
  pub version : String
  pub title : String
  pub status : ProgramStatus
  pub owner_ref : String
  pub levels : List ProgramLevel

-- `value in values` and `len(values) == len(set(values))`, of texts and of numbers.
abbrev pub text_in : String → List String → Bool
text_in x xs = any (λ y. y == x) xs

abbrev pub nat_in : ℕ → List ℕ → Bool
nat_in n ns = any (λ m. nat_beq m n) ns

abbrev pub unique_texts : List String → Bool
unique_texts [] = true
unique_texts (x ∷ xs) = not (text_in x xs) && unique_texts xs

abbrev pub unique_nats : List ℕ → Bool
unique_nats [] = true
unique_nats (n ∷ ns) = not (nat_in n ns) && unique_nats ns

-- `sum(item.points for item in requirements)`
abbrev pub total_points : List Requirement → ℕ
total_points [] = 0
total_points (r ∷ rest) = r.points + total_points rest

abbrev count_project : List Requirement → ℕ
count_project [] = 0
count_project (r ∷ rest) =
    if is_project_status r.condition then 1 + count_project rest else count_project rest

abbrev kind_ok : MilestoneKind → List Requirement → Bool
kind_ok project_certification rs = nat_beq (count_project rs) 1
kind_ok _ rs = true

abbrev rule_ok : CompletionRule → List Requirement → Bool
rule_ok all_required rs = true
rule_ok (minimum_points n) rs = leb n (total_points rs)

-- `MilestoneSpec.validate_requirements`
unfoldable pub milestone_ok : MilestoneSpec → Bool
milestone_ok m =
    not (nat_beq (length m.requirements) 0)
    && (unique_texts (map (λ (r : Requirement). r.requirement_id) m.requirements)
        && (kind_ok m.kind m.requirements && rule_ok m.completion_rule m.requirements))
