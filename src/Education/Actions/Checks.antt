-- ===== src/Education/Actions/Checks.antt =====
-- The checks that the methods of the education service share (src/axcalib/programs/service.py).
use axcalib.Prelude.{
  ℕ, String, Bool, true, false, ◌&&◌, ◌||◌, Option, none, some, List, [], ◌∷◌, nat_beq, ◌==◌,
  string_eq, option_eq, if◌then◌else◌,
}
use axcalib.Exec.{Result, ok, err}
use axcalib.Education.Refusal.{
  Refusal, stale_revision, not_active, unknown_milestone, unknown_progress, unknown_requirement,
  not_manual, not_score, wrong_role, no_status_requirement, context_mismatch, require,
}
use axcalib.Workflow.{ProjectStatus}
use axcalib.Workflow
use axcalib.Education.Schema.{
  Requirement, Condition, manual_confirmation, score_at_least, project_status, ReviewRole,
  role_name, RequiredStatus, registration_approved, completion_accepted, MilestoneSpec,
  EducationProgram,
}
use axcalib.Education.Program.{Placed}
use axcalib.Education.Enrollment.{
  MilestoneProgress, ProgressStatus, available, in_progress, waiting_review, needs_action,
  EnrollmentStatus, active, completion_hitl_pending, returned_for_revision, EducationEnrollment,
}

-- `ReviewContext`, as far as the service reads it.
pub record ReviewContext : Type 0 where
  pub program_id : Option String
  pub program_version : Option String
  pub enrollment_id : Option String
  pub milestone_id : Option String
  pub learner_ref : Option String
  pub proposer_org_id : Option String

abbrev pub expected_ok : Option ℕ → ℕ → Bool
expected_ok none revision = true
expected_ok (some n) revision = nat_beq revision n

-- `_require_revision`
abbrev pub require_revision : EducationEnrollment → Option ℕ → Result Refusal (Unit {0})
require_revision e expected = require (expected_ok expected e.revision) stale_revision

abbrev pub may_progress : EnrollmentStatus → Bool
may_progress active = true
may_progress returned_for_revision = true
may_progress _ = false

abbrev pub is_pending : EnrollmentStatus → Bool
is_pending completion_hitl_pending = true
is_pending _ = false

-- `_require_active`
abbrev pub require_active : EducationEnrollment → Result Refusal (Unit {0})
require_active e = require (may_progress e.status) not_active

-- `_progress`
unfoldable pub progress_of : String → List MilestoneProgress → Result Refusal MilestoneProgress
progress_of id [] = err unknown_progress
progress_of id (p ∷ ps) = if p.milestone_id == id then ok p else progress_of id ps

-- `_milestone`
unfoldable pub milestone_of : String → List Placed → Result Refusal MilestoneSpec
milestone_of id [] = err unknown_milestone
milestone_of id (q ∷ qs) =
    if q.milestone.milestone_id == id then ok q.milestone else milestone_of id qs

-- `_requirement`
unfoldable pub requirement_of : String → List Requirement → Result Refusal Requirement
requirement_of id [] = err unknown_requirement
requirement_of id (q ∷ qs) = if q.requirement_id == id then ok q else requirement_of id qs

-- `_require_role`
abbrev pub require_role : ReviewRole → ReviewRole → Result Refusal (Unit {0})
require_role needed role =
    require (role_name role == role_name needed || role_name role == "administrator") wrong_role

-- `isinstance` of a requirement, with the role that it needs.
abbrev pub manual_role : Condition → Result Refusal ReviewRole
manual_role (manual_confirmation role) = ok role
manual_role _ = err not_manual

abbrev pub score_rule : Condition → Result Refusal (ℕ × ReviewRole)
score_rule (score_at_least passing role) = ok (passing, role)
score_rule _ = err not_score

abbrev status_of : Condition → Option RequiredStatus
status_of (project_status s) = some s
status_of _ = none

-- The first requirement of a project's status.
abbrev pub status_requirement : List Requirement → Result Refusal (Requirement × RequiredStatus)
status_requirement [] = err no_status_requirement
status_requirement (q ∷ qs) = elim (status_of q.condition) [
  | none ↦ status_requirement qs
  | some s ↦ ok (q, s)
]

-- `_project_status_satisfies`
unfoldable pub status_satisfies : ProjectStatus → RequiredStatus → Bool
status_satisfies Workflow.completion_accepted completion_accepted = true
status_satisfies _ completion_accepted = false
status_satisfies Workflow.draft registration_approved = false
status_satisfies Workflow.registration_ready registration_approved = false
status_satisfies Workflow.registration_under_review registration_approved = false
status_satisfies Workflow.registration_hitl_pending registration_approved = false
status_satisfies Workflow.registration_rejected registration_approved = false
status_satisfies _ registration_approved = true

-- `progress.status in {...}` of the methods.
abbrev pub may_start : ProgressStatus → Bool
may_start available = true
may_start needs_action = true
may_start _ = false

abbrev pub may_bind : ProgressStatus → Bool
may_bind available = true
may_bind in_progress = true
may_bind needs_action = true
may_bind _ = false

abbrev pub may_record : ProgressStatus → Bool
may_record available = true
may_record in_progress = true
may_record waiting_review = true
may_record needs_action = true
may_record _ = false

abbrev organization_ok : Option String → ReviewContext → Bool
organization_ok none c = true
organization_ok (some o) c = c.proposer_org_id == some o

-- `_require_project_context`
abbrev pub require_project_context :
    ReviewContext
    → EducationEnrollment
    → EducationProgram
    → MilestoneSpec
    → Option String
    → Result Refusal (Unit {0})
require_project_context c e program m organization_id =
    require
      (c.program_id == some program.program_id
        && (c.program_version == some program.version
            && (c.enrollment_id == some e.enrollment_id
                && (c.milestone_id == some m.milestone_id
                    && (c.learner_ref == some e.learner_ref
                        && organization_ok organization_id c)))))
      context_mismatch

abbrev pub is_empty : List String → Bool
is_empty [] = true
is_empty (_ ∷ _) = false
