-- ===== src/Education/Actions.antt =====
-- What the education service decides about an enrollment: the checks of each method and the record
-- that it hands to the transaction (src/axcalib/programs/service.py). The new event's identity and
-- the time are arguments.
mod Checks
unfoldable pub use Checks.*
use axcalib.Prelude.{
  ℕ, ◌+◌, String, Bool, true, false, not, ◌&&◌, ◌||◌, Option, none, some, List, [], ◌∷◌, ◌++◌, map,
  any, all, leb, nat_beq, is_some, has_text, ◌==◌, string_eq, option_eq, if◌then◌else◌,
}
use axcalib.Exec.{Result, ok, err}
use axcalib.Education.Refusal.{
  Refusal, stale_revision, not_active, unknown_milestone, unknown_progress, unknown_requirement,
  not_manual, not_score, not_project, wrong_role, score_range, milestone_status,
  no_status_requirement, context_mismatch, other_project, unbound_project, not_waiting,
  empty_rationale, invalid_decision, no_reopened, unknown_reopened, key_error, ◌>>=◌, ◌>>◌, require,
}
use axcalib.Workflow.{ProjectStatus, is_blank, strip}
use axcalib.Education.Schema.{
  Requirement, Condition, manual_confirmation, score_at_least, project_status, ReviewRole,
  role_name, MilestoneSpec, MilestoneKind, EducationProgram, text_in,
}
use axcalib.Education.Enrollment
use axcalib.Education.Enrollment.{
  RequirementResult, MilestoneProgress, ProgressStatus, available, in_progress, waiting_review,
  needs_action, EnrollmentStatus, active, completion_hitl_pending, returned_for_revision,
  DecisionCommand, approve, CompletionDecision, decision_ok, EducationEnrollment, progress_ids,
  has_notice,
}
use axcalib.Education.Progress.{
  put_result, sorted_results, evaluate_milestone, replace_progress, unlock_dependents, is_ready,
}

abbrev pub or_now : Option ℕ → ℕ → Option ℕ
or_now none now = some now
or_now (some t) now = some t

-- `_save_progress_event`: the candidate.
unfoldable pub with_progress :
    EducationEnrollment → MilestoneProgress → String → EducationEnrollment
with_progress e p event_id = record e {
  status = active;
  milestones = replace_progress e.milestones p;
  audit_event_ids = e.audit_event_ids ++ event_id ∷ [];
}

-- `start_milestone`
unfoldable pub start :
    ℕ → String → EducationEnrollment → Option ℕ → String → Result Refusal EducationEnrollment
start now event_id e expected milestone_id = do
  require_revision e expected
  require_active e
  p ← progress_of milestone_id e.milestones
  require (may_start p.status) milestone_status
  ok (
      with_progress e (record p { status = in_progress; started_at = or_now p.started_at now })
        event_id)

-- `bind_project`, behind the load of the dossier, whose context `context` is.
unfoldable pub bind_project :
    ℕ
    → String
    → EducationEnrollment
    → EducationProgram
    → MilestoneSpec
    → ReviewContext
    → String
    → Option String
    → Result Refusal EducationEnrollment
bind_project now event_id e program m context project_id organization_id = do
  require_project_context context e program m organization_id
  p ← progress_of m.milestone_id e.milestones
  require (not (has_text p.bound_project_id) || p.bound_project_id == some project_id) other_project
  require (may_bind p.status) milestone_status
  ok (
      with_progress e
        (record p {
          bound_project_id = some project_id;
          status = in_progress;
          started_at = or_now p.started_at now;
        })
        event_id)

-- The progress behind a recorded result.
unfoldable pub recorded :
    ℕ → RequirementResult → MilestoneProgress → MilestoneSpec → MilestoneProgress
recorded now r p m =
    evaluate_milestone now
      (record p {
        status = in_progress;
        started_at = or_now p.started_at now;
        requirement_results = sorted_results (put_result r p.requirement_results);
      })
      m

abbrev pub unlocked : Option (List MilestoneProgress) → Result Refusal (List MilestoneProgress)
unlocked none = err key_error
unlocked (some ps) = ok ps

-- `_record_requirement`: the candidate of its first transaction.
unfoldable pub record_requirement :
    ℕ
    → String
    → EducationEnrollment
    → EducationProgram
    → MilestoneSpec
    → RequirementResult
    → Result Refusal EducationEnrollment
record_requirement now event_id e program m r = do
  p ← progress_of m.milestone_id e.milestones
  require (may_record p.status) milestone_status
  ps ← unlocked (unlock_dependents (replace_progress e.milestones (recorded now r p m)) program)
  ok (record e {
    status = active;
    milestones = ps;
    audit_event_ids = e.audit_event_ids ++ event_id ∷ [];
  })

-- The result of `record_manual_confirmation`.
unfoldable pub manual_result :
    ℕ → MilestoneSpec → String → String → ReviewRole → String → Result Refusal RequirementResult
manual_result now m requirement_id actor_id role evidence_ref = do
  q ← requirement_of requirement_id m.requirements
  needed ← manual_role q.condition
  require_role needed role
  ok (record {
    requirement_id = requirement_id;
    satisfied = true;
    points_awarded = q.points;
    source = Enrollment.manual_confirmation;
    actor_id = actor_id;
    actor_role = role_name role;
    evidence_ref = evidence_ref;
    observed_value = Enrollment.confirmed;
    recorded_at = now;
  })

-- The result of `record_score`; `full` is 100 points.
unfoldable pub score_result :
    ℕ
    → ℕ
    → MilestoneSpec
    → String
    → ℕ
    → String
    → ReviewRole
    → String
    → Result Refusal RequirementResult
score_result full now m requirement_id score actor_id role evidence_ref = do
  q ← requirement_of requirement_id m.requirements
  needed ← score_rule q.condition
  require_role needed.1 role
  require (leb score full) score_range
  ok (record {
    requirement_id = requirement_id;
    satisfied = leb needed.0 score;
    points_awarded = if leb needed.0 score then q.points else 0;
    source = Enrollment.score;
    actor_id = actor_id;
    actor_role = role_name role;
    evidence_ref = evidence_ref;
    observed_value = Enrollment.scored score;
    recorded_at = now;
  })

-- The result of `sync_project_milestone` for a dossier in a status.
unfoldable pub project_result :
    ℕ → MilestoneSpec → ProjectStatus → String → Result Refusal RequirementResult
project_result now m status evidence_ref = do
  found ← status_requirement m.requirements
  ok (record {
    requirement_id = found.0.requirement_id;
    satisfied = status_satisfies status found.1;
    points_awarded = if status_satisfies status found.1 then found.0.points else 0;
    source = Enrollment.project_dossier;
    actor_id = "system:education-runtime";
    actor_role = "system";
    evidence_ref = evidence_ref;
    observed_value = Enrollment.dossier_status status;
    recorded_at = now;
  })

-- `_request_program_completion_if_ready`: the candidate of its transaction, if there is one.
unfoldable pub completion_request :
    String → EducationProgram → EducationEnrollment → Option EducationEnrollment
completion_request event_id program e =
    if not (is_ready program e.milestones)
    then none
    else if is_pending e.status
    then none
    else some (record e {
      status = completion_hitl_pending;
      notifications = e.notifications ++ (e.revision + 1) ∷ [];
      audit_event_ids = e.audit_event_ids ++ event_id ∷ [];
    })

-- The milestones that a return for revision opens again.
unfoldable pub reopen : List String → List MilestoneProgress → List MilestoneProgress
reopen ids [] = []
reopen ids (p ∷ ps) =
    (if text_in p.milestone_id ids
      then record p { status = needs_action; completed_at = none; requirement_results = [] }
      else p)
    ∷ reopen ids ps

-- The arguments of `decide_program_completion` that its decision keeps.
pub record DecisionRequest : Type 0 where
  pub command : DecisionCommand
  pub actor_id : String
  pub rationale : String
  pub authority_context : String

-- The decision that the call builds: the role is the contract's default, no argument.
abbrev pub decision_of : DecisionRequest → CompletionDecision
decision_of q = record {
  command = q.command;
  actor_id = q.actor_id;
  actor_role = "administrator";
  rationale = strip q.rationale;
  authority_context = q.authority_context;
}

-- What a decision makes of the enrollment.
unfoldable pub decided :
    String
    → EducationEnrollment
    → CompletionDecision
    → List String
    → DecisionCommand
    → Result Refusal EducationEnrollment
decided event_id e d reopened approve = ok (record e {
  status = Enrollment.EnrollmentStatus.completed;
  completion_decisions = e.completion_decisions ++ d ∷ [];
  audit_event_ids = e.audit_event_ids ++ event_id ∷ [];
})
decided event_id e d reopened Enrollment.return_for_revision = do
  require (not (is_empty reopened)) no_reopened
  require (all (λ k. text_in k (progress_ids e.milestones)) reopened) unknown_reopened
  ok (record e {
    status = returned_for_revision;
    milestones = reopen reopened e.milestones;
    completion_decisions = e.completion_decisions ++ d ∷ [];
    audit_event_ids = e.audit_event_ids ++ event_id ∷ [];
  })

-- `decide_program_completion`
unfoldable pub decide :
    String
    → EducationEnrollment
    → Option ℕ
    → DecisionRequest
    → List String
    → Result Refusal EducationEnrollment
unfolding decided decision_ok strip
decide event_id e expected q reopened = do
  require_revision e expected
  require (is_pending e.status) not_waiting
  require (not (is_blank q.rationale)) empty_rationale
  require (decision_ok (decision_of q)) invalid_decision
  decided event_id e (decision_of q) reopened q.command
