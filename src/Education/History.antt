-- ===== src/Education/History.antt =====
-- The history of one enrollment: what its committed transactions make of it
-- (src/axcalib/programs/service.py). A transaction that commits raises the revision by one
-- (`EnrollmentRepository.save`); one that does not commit leaves the enrollment as it is, also
-- between the two transactions of `_record_requirement`.
use axcalib.Prelude.{ℕ, ◌+◌, String, ◌≡◌, true, Option, none, some, List, [], ◌∷◌}
use axcalib.Exec.{ok}
use axcalib.Education.Schema.{MilestoneSpec, EducationProgram}
use axcalib.Education.Program.{Placed, milestones}
use axcalib.Education.Enrollment
use axcalib.Education.Enrollment.{
  RequirementResult, MilestoneProgress, ProgressStatus, locked, available, ProgramRef,
  EducationEnrollment,
}
use axcalib.Education.Actions.{
  DecisionRequest, ReviewContext, start, bind_project, record_requirement, completion_request,
  decide, may_progress,
}

abbrev pub first_status : List String → ProgressStatus
first_status [] = available
first_status (_ ∷ _) = locked

abbrev pub goal : Placed → MilestoneProgress
goal q = record {
  milestone_id = q.milestone.milestone_id;
  level_id = q.level_id;
  goal_title = q.milestone.title;
  pipeline_id = q.milestone.pipeline_id;
  pipeline_version = q.milestone.pipeline_version;
  status = first_status q.milestone.prerequisites;
  bound_project_id = none;
  requirement_results = [];
  started_at = none;
  completed_at = none;
}

abbrev pub goals : List Placed → List MilestoneProgress
goals [] = []
goals (q ∷ qs) = goal q ∷ goals qs

-- `enroll`: the enrollment that its transaction creates.
unfoldable pub enrolled :
    ℕ → EducationProgram → ProgramRef → String → String → String → EducationEnrollment
enrolled now program ref enrollment_id learner_ref event_id = record {
  enrollment_id = enrollment_id;
  learner_ref = learner_ref;
  program = ref;
  revision = 1;
  status = Enrollment.active;
  updated_at = now;
  milestones = goals (milestones program);
  notifications = [];
  completion_decisions = [];
  audit_event_ids = event_id ∷ [];
}

-- What `save` makes of a candidate.
abbrev pub saved : ℕ → EducationEnrollment → EducationEnrollment
saved now e = record e { revision = e.revision + 1; updated_at = now }

module _ (program : EducationProgram) where
  -- One committed transaction. The program is that of the enrollment: `_context` compares its hash.
  pub data Step : EducationEnrollment → EducationEnrollment → Type 0 where
    started :
        (now t : ℕ) (event_id milestone_id : String) (expected : Option ℕ)
        (e c : EducationEnrollment)
        → start now event_id e expected milestone_id ≡ ok c
        → Step e (saved t c)
    bound :
        (now t : ℕ) (event_id project_id : String) (m : MilestoneSpec) (context : ReviewContext)
        (organization_id : Option String) (e c : EducationEnrollment)
        → may_progress e.status ≡ true
        → bind_project now event_id e program m context project_id organization_id ≡ ok c
        → Step e (saved t c)
    recorded_result :
        (now t : ℕ) (event_id : String) (m : MilestoneSpec) (r : RequirementResult)
        (e c : EducationEnrollment)
        → may_progress e.status ≡ true
        → record_requirement now event_id e program m r ≡ ok c
        → Step e (saved t c)
    requested :
        (t : ℕ) (event_id : String) (e c : EducationEnrollment)
        → may_progress e.status ≡ true
        → completion_request event_id program e ≡ some c
        → Step e (saved t c)
    decided_on :
        (t : ℕ) (event_id : String) (expected : Option ℕ) (q : DecisionRequest)
        (reopened : List String) (e c : EducationEnrollment)
        → decide event_id e expected q reopened ≡ ok c
        → Step e (saved t c)

  -- The enrollments that some sequence of committed transactions leads to.
  pub data Reach (e : EducationEnrollment) : EducationEnrollment → Type 0 where
    here : Reach e e
    next : {f g : EducationEnrollment} → Reach e f → Step f g → Reach e g
