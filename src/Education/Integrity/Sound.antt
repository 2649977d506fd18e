-- ===== src/Education/Integrity/Sound.antt =====
-- What holds of an enrollment between the transactions (src/axcalib/programs/service.py, for the
-- validators of src/axcalib/schemas/education.py, which a changed copy does not run).
use axcalib.Prelude.{
  ℕ, ◌+◌, ◌≡◌, refl, ap, Bool, true, false, some, List, [], ◌∷◌, ◌++◌, all, arith, length,
  length-append, string_eq, option_eq,
}
use axcalib.Education.Schema.{EducationProgram}
use axcalib.Education.Program.{milestones, ids}
use axcalib.Education.Enrollment
use axcalib.Education.Enrollment.{
  RequirementResult, MilestoneProgress, ProgressStatus, locked, available, in_progress,
  waiting_review, needs_action, is_completed, progress_ok, progress_ids, EnrollmentStatus, active,
  completion_hitl_pending, CompletionDecision, DecisionCommand, approve, return_for_revision,
  EducationEnrollment, enrollment_ok, latest_command, decision_ok, is_approved, is_returned,
  last_command, has_notice,
}
use axcalib.Education.Integrity.Frontier.{closed}
use axcalib.Education.Progress.{completed_ids, is_ready}

abbrev pub is_settled : EnrollmentStatus → Bool
is_settled completion_hitl_pending = true
is_settled Enrollment.EnrollmentStatus.completed = true
is_settled _ = false

-- The items of an enrollment are valid, and are those of its program, in its order.
pub record IsSound (program : EducationProgram) (e : EducationEnrollment) : Type 0 where
  pub valid : enrollment_ok e ≡ true
  pub aligned : progress_ids e.milestones ≡ ids (milestones program)
  pub locking : closed (completed_ids e.milestones) (milestones program) e.milestones ≡ true
  pub ready : is_settled e.status ≡ true → is_ready program e.milestones ≡ true
  pub decisions : all decision_ok e.completion_decisions ≡ true
  pub audited : length e.audit_event_ids ≡ e.revision

pub length-snoc : {A : Type 0} (xs : List A) (x : A) → length (xs ++ x ∷ []) ≡ length xs + 1
length-snoc xs x = length-append xs (x ∷ [])

pub has_notice-snoc : (ns : List ℕ) (n : ℕ) → has_notice (ns ++ n ∷ []) ≡ true
has_notice-snoc [] n = refl
has_notice-snoc (x ∷ ns) n = refl

last_command-snoc :
    (x d : CompletionDecision) (ds : List CompletionDecision)
    → last_command x (ds ++ d ∷ []) ≡ d.command
last_command-snoc x d [] = refl
last_command-snoc x d (y ∷ ds) = last_command-snoc y d ds

pub latest_command-snoc :
    (ds : List CompletionDecision) (d : CompletionDecision)
    → latest_command (ds ++ d ∷ []) ≡ some d.command
latest_command-snoc [] d = refl
latest_command-snoc (x ∷ ds) d = ap some (last_command-snoc x d ds)

pub decisions-snoc :
    (ds : List CompletionDecision) (d : CompletionDecision)
    → all decision_ok ds ≡ true
    → decision_ok d ≡ true
    → all decision_ok (ds ++ d ∷ []) ≡ true
decisions-snoc [] d a h = ground (arith, h)
decisions-snoc (x ∷ ds) d a h = ground (arith, decisions-snoc ds d)
