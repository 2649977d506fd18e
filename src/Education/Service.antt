-- ===== src/Education/Service.antt =====
-- The calls of the education service on an enrollment that is loaded and a program that is resolved
-- (`EducationProgramService`, src/axcalib/programs/service.py): each gives the candidate of its
-- transaction or the reason why it is refused. The dossiers are looked up by a function.
pub mod Commits
use axcalib.Prelude.{
  ℕ, String, ◌≡◌, refl, Bool, true, false, not, ◌&&◌, ◌||◌, Option, none, some, List, [], ◌∷◌, all,
  any, has_text, leb, ◌==◌, string_eq, if◌then◌else◌, arith, inl, inr,
}
use axcalib.Exec.{Result, ok, err, Result-cases}
use axcalib.Workflow.{ProjectStatus}
use axcalib.Education.Refusal.{
  Refusal, program_changed, not_project, not_allowlisted, not_open, unbound_project, ◌>>=◌, ◌>>◌,
  require,
}
use axcalib.Education.Schema.{
  MilestoneKind, project_certification, ReviewRole, MilestoneSpec, EducationProgram, ProgramStatus,
  published, offline_reference, text_in,
}
use axcalib.Education.Program.{Placed, milestones}
use axcalib.Education.Enrollment.{
  ProgramRef, MilestoneProgress, EducationEnrollment, RequirementResult,
}
use axcalib.Education.Actions.{
  DecisionRequest, ReviewContext, start, bind_project, record_requirement, decide, progress_of,
  milestone_of, require_revision, require_active, require_project_context, manual_result,
  score_result, project_result, may_progress,
}
use axcalib.Education.History.{enrolled, Step, saved, started, bound, recorded_result, decided_on}

-- What the service reads of a dossier.
pub record ProjectView : Type 0 where
  pub context : ReviewContext
  pub status : ProjectStatus
  pub evidence_ref : String

-- The calls, with their arguments beside the enrollment.
pub data Call : Type 0 where
  start_milestone : String → Call
  record_manual_confirmation : String → String → String → ReviewRole → String → Call
  record_score : String → String → ℕ → String → ReviewRole → String → Call
  link_project : String → String → Option String → Call
  sync_project_milestone : String → Option String → Call
  decide_program_completion : DecisionRequest → List String → Call

-- `ALLOWED_MILESTONE_PIPELINES`
abbrev allowed_pipelines : List (String × String)
allowed_pipelines =
    ("education.manual-confirmation", "v1alpha1")
    ∷ ("education.score-assessment", "v1alpha1")
    ∷ ("two-gate-pptx", "v1alpha1")
    ∷ []

abbrev same_pipeline : MilestoneSpec → String × String → Bool
same_pipeline m (id, version) = m.pipeline_id == id && m.pipeline_version == version

abbrev may_enroll : ProgramStatus → Bool
may_enroll published = true
may_enroll offline_reference = true
may_enroll _ = false

-- The checks of `publish_program`, ahead of the repository's `publish`.
unfoldable pub publishable : EducationProgram → Result Refusal (Unit {0})
publishable p = do
  require (may_enroll p.status) not_open
  require (all (λ (q : Placed). any (same_pipeline q.milestone) allowed_pipelines) (milestones p))
      not_allowlisted

-- `enroll`: the enrollment of its transaction.
unfoldable pub enroll :
    ℕ
    → EducationProgram
    → ProgramRef
    → String
    → String
    → String
    → Result Refusal EducationEnrollment
enroll now p ref enrollment_id learner_ref event_id = do
  require (may_enroll p.status) not_open
  ok (enrolled now p ref enrollment_id learner_ref event_id)

abbrev pub is_project_kind : MilestoneKind → Bool
is_project_kind project_certification = true
is_project_kind _ = false

abbrev pub bound_project : MilestoneProgress → Result Refusal String
bound_project p = elim p.bound_project_id [
  | none ↦ err unbound_project
  | some id ↦ if id == "" then err unbound_project else ok id
]

-- `_context`, behind the load of the enrollment and the resolution of its program.
abbrev pub context_of :
    EducationProgram → String → EducationEnrollment → String → Result Refusal MilestoneSpec
context_of program sha256 e milestone_id =
    require (sha256 == e.program.sha256) program_changed
    >> milestone_of milestone_id (milestones program)

-- A service at a time, with the resolved program and its digest.
module _ (program : EducationProgram) (sha256 : String)
    (dossiers : String → Result Refusal ProjectView) (full now : ℕ) (event_id : String) where
  unfoldable pub apply : Call → EducationEnrollment → Option ℕ → Result Refusal EducationEnrollment
  apply (start_milestone milestone_id) e expected = start now event_id e expected milestone_id
  apply (record_manual_confirmation milestone_id requirement_id actor_id role evidence_ref) e
        expected =
      do
        m ← context_of program sha256 e milestone_id
        require_revision e expected
        require_active e
        r ← manual_result now m requirement_id actor_id role evidence_ref
        record_requirement now event_id e program m r
  apply (record_score milestone_id requirement_id score actor_id role evidence_ref) e expected = do
    m ← context_of program sha256 e milestone_id
    require_revision e expected
    require_active e
    r ← score_result full now m requirement_id score actor_id role evidence_ref
    record_requirement now event_id e program m r
  apply (link_project milestone_id project_id organization_id) e expected = do
    m ← context_of program sha256 e milestone_id
    require_revision e expected
    require_active e
    require (is_project_kind m.kind) not_project
    d ← dossiers project_id
    bind_project now event_id e program m d.context project_id organization_id
  apply (sync_project_milestone milestone_id organization_id) e expected = do
    m ← context_of program sha256 e milestone_id
    require_revision e expected
    require_active e
    p ← progress_of milestone_id e.milestones
    id ← bound_project p
    d ← dossiers id
    require_project_context d.context e program m organization_id
    r ← project_result now m d.status d.evidence_ref
    record_requirement now event_id e program m r
  apply (decide_program_completion q reopened) e expected = decide event_id e expected q reopened
