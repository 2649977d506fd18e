-- ===== src/Education/Enrollment.antt =====
-- The record of a learner's progress and its validators (`MilestoneProgress`,
-- `EducationEnrollment` and what they hold, src/axcalib/schemas/education.py). Times are instants of
-- one clock.
use axcalib.Prelude.{
  ℕ, String, Bool, true, false, not, ◌&&◌, fits, ◌==◌, Option, none, some, List, [], ◌∷◌, map, all,
  is_some, is_none, string_eq, if◌then◌else◌,
}
use axcalib.Workflow.{ProjectStatus}
use axcalib.Education.Schema.{unique_texts}

pub data Source : Type 0 where
  manual_confirmation score project_dossier : Source

-- The text of an observed value, by what it says.
pub data Observed : Type 0 where
  confirmed : Observed
  scored : ℕ → Observed
  dossier_status : ProjectStatus → Observed

pub record RequirementResult : Type 0 where
  pub requirement_id : String
  pub satisfied : Bool
  pub points_awarded : ℕ
  pub source : Source
  pub actor_id : String
  pub actor_role : String
  pub evidence_ref : String
  pub observed_value : Observed
  pub recorded_at : ℕ

pub data ProgressStatus : Type 0 where
  locked available in_progress waiting_review needs_action completed : ProgressStatus

abbrev pub is_completed : ProgressStatus → Bool
is_completed completed = true
is_completed _ = false

abbrev pub is_locked : ProgressStatus → Bool
is_locked locked = true
is_locked _ = false

pub record MilestoneProgress : Type 0 where
  pub milestone_id : String
  pub level_id : String
  pub goal_title : String
  pub pipeline_id : String
  pub pipeline_version : String
  pub status : ProgressStatus
  pub bound_project_id : Option String
  pub requirement_results : List RequirementResult
  pub started_at : Option ℕ
  pub completed_at : Option ℕ

abbrev pub result_ids : List RequirementResult → List String
result_ids rs = map (λ (r : RequirementResult). r.requirement_id) rs

-- `validate_progress_integrity`
unfoldable pub progress_ok : MilestoneProgress → Bool
progress_ok p =
    unique_texts (result_ids p.requirement_results)
    && (if is_completed p.status then is_some p.completed_at else is_none p.completed_at)

pub data EnrollmentStatus : Type 0 where
  active completion_hitl_pending completed returned_for_revision withdrawn : EnrollmentStatus

pub data DecisionCommand : Type 0 where
  approve return_for_revision : DecisionCommand

-- `ProgramCompletionDecision`, without its time and its constant `source`.
pub record CompletionDecision : Type 0 where
  pub command : DecisionCommand
  pub actor_id : String
  pub actor_role : String
  pub rationale : String
  pub authority_context : String

-- `min_length=1, max_length=n`
abbrev pub text_within : ℕ → String → Bool
text_within n s = not (s == "") && fits n s

-- What `ProgramCompletionDecision` checks of its fields.
unfoldable pub decision_ok : CompletionDecision → Bool
decision_ok d = d.actor_role == "administrator" && text_within 4000 d.rationale

pub record ProgramRef : Type 0 where
  pub program_id : String
  pub version : String
  pub sha256 : String

pub record EducationEnrollment : Type 0 where
  pub enrollment_id : String
  pub learner_ref : String
  pub program : ProgramRef
  pub revision : ℕ
  pub status : EnrollmentStatus
  pub updated_at : ℕ
  pub milestones : List MilestoneProgress
  pub notifications : List ℕ
  pub completion_decisions : List CompletionDecision
  pub audit_event_ids : List String

abbrev pub progress_ids : List MilestoneProgress → List String
progress_ids ps = map (λ (p : MilestoneProgress). p.milestone_id) ps

abbrev pub last_command : CompletionDecision → List CompletionDecision → DecisionCommand
last_command d [] = d.command
last_command d (x ∷ rest) = last_command x rest

-- `completion_decisions[-1].command`
abbrev pub latest_command : List CompletionDecision → Option DecisionCommand
latest_command [] = none
latest_command (d ∷ rest) = some (last_command d rest)

abbrev pub last_decision : CompletionDecision → List CompletionDecision → CompletionDecision
last_decision d [] = d
last_decision d (x ∷ rest) = last_decision x rest

-- `completion_decisions[-1]`
abbrev pub latest_decision : List CompletionDecision → Option CompletionDecision
latest_decision [] = none
latest_decision (d ∷ rest) = some (last_decision d rest)

abbrev pub is_approved : Option DecisionCommand → Bool
is_approved (some approve) = true
is_approved _ = false

abbrev pub is_returned : Option DecisionCommand → Bool
is_returned (some return_for_revision) = true
is_returned _ = false

abbrev pub has_notice : List ℕ → Bool
has_notice [] = false
has_notice (_ ∷ _) = true

abbrev status_ok : EnrollmentStatus → EducationEnrollment → Bool
status_ok completion_hitl_pending e = has_notice e.notifications
status_ok completed e = is_approved (latest_command e.completion_decisions)
status_ok returned_for_revision e = is_returned (latest_command e.completion_decisions)
status_ok _ e = true

-- `validate_enrollment_integrity`, with the validation of each milestone's progress.
unfoldable pub enrollment_ok : EducationEnrollment → Bool
enrollment_ok e =
    all progress_ok e.milestones
    && (unique_texts (progress_ids e.milestones) && status_ok e.status e)
