-- ===== src/Education/Certified.antt =====
-- What holds of every enrollment that committed transactions lead to, and where it cannot go on
-- (src/axcalib/programs/service.py).
use axcalib.Prelude.{
  ℕ, String, ◌≡◌, refl, ap, true, false, ◌||◌, string_eq, Option, List, [], ◌∷◌, any, all, length,
  arith, inl, inr,
}
use axcalib.Exec.{ok, is_ok, Result-cases}
use axcalib.Education.Schema.{MilestoneSpec, EducationProgram, unique_texts}
use axcalib.Education.Program.{Placed, milestones, graph_ok, ids}
use axcalib.Education.Program.Identity.{milestones_unique}
use axcalib.Education.Program.Prerequisites.{milestones-in_order}
use axcalib.Education.Enrollment
use axcalib.Education.Enrollment.{
  RequirementResult, MilestoneProgress, ProgressStatus, locked, available, in_progress,
  waiting_review, needs_action, is_completed, progress_ok, progress_ids, EnrollmentStatus, active,
  CompletionDecision, ProgramRef, EducationEnrollment, enrollment_ok, latest_command, is_approved,
}
use axcalib.Education.Actions.{
  DecisionRequest, ReviewContext, start, bind_project, record_requirement, decide, progress_of,
  may_progress,
}
use axcalib.Education.Approval.{
  IsCertified, RequiredCompleted, is_ready-RequiredCompleted, approved-IsCertified,
}
use axcalib.Education.History.{enrolled, goals, Reach, here, next}
use axcalib.Education.Integrity.Frontier.{is_open, all_completed, completed_ids-goals}
use axcalib.Education.Integrity.Open.{enrolled-closed, closed-open}
use axcalib.Education.Integrity.Sound.{IsSound}
use axcalib.Education.Integrity.Steps.{Step-IsSound}

goals-ok : (qs : List Placed) → all progress_ok (goals qs) ≡ true
unfolding progress_ok
goals-ok [] = refl
goals-ok (q ∷ qs) = ground (arith, goals-ok qs)

progress_ids-goals : (qs : List Placed) → progress_ids (goals qs) ≡ ids qs
progress_ids-goals [] = refl
progress_ids-goals (q ∷ qs) = ground (arith, progress_ids-goals qs)

enrolled-IsSound :
    (now : ℕ) (program : EducationProgram) (ref : ProgramRef)
    (enrollment_id learner_ref event_id : String)
    → graph_ok program ≡ true
    → IsSound program (enrolled now program ref enrollment_id learner_ref event_id)
unfolding enrolled enrollment_ok
enrolled-IsSound now program ref enrollment_id learner_ref event_id h =
    let qs = milestones program in
    record {
      valid = ground (
        arith,
        goals-ok qs,
        ap unique_texts (progress_ids-goals qs),
        milestones_unique program h,
      );
      aligned = progress_ids-goals qs;
      locking = rw (completed_ids-goals qs) (enrolled-closed qs (milestones_unique program h));
      ready = λ x. ground (arith, x);
      decisions = refl;
      audited = refl;
    }

Reach-IsSound :
    (program : EducationProgram) (e f : EducationEnrollment)
    → IsSound program e
    → Reach program e f
    → IsSound program f
Reach-IsSound program e _ s here = s
Reach-IsSound program e _ s (next {f} {g} r step) =
    Step-IsSound program f g step (Reach-IsSound program e f s r)

approved-status :
    (e : EducationEnrollment)
    → enrollment_ok e ≡ true
    → e.status ≡ Enrollment.EnrollmentStatus.completed
    → is_approved (latest_command e.completion_decisions) ≡ true
unfolding enrollment_ok
approved-status e v h = ground arith

module _ (now : ℕ) (program : EducationProgram) (ref : ProgramRef)
    (enrollment_id learner_ref event_id : String) (e : EducationEnrollment)
    (graph : graph_ok program ≡ true)
    (reached : Reach program (enrolled now program ref enrollment_id learner_ref event_id) e) where
  reached-IsSound : IsSound program e
  reached-IsSound =
      Reach-IsSound program _ e
        (enrolled-IsSound now program ref enrollment_id learner_ref event_id graph) reached

  -- Let the program's graph be accepted. Every enrollment that committed transactions lead to
  -- from `enrolled` passes `enrollment_ok`, has the program's milestones in the order of
  -- `milestones`, and names as many audit events as its revision counts.
  pub reached-valid :
      (enrollment_ok e ≡ true)
      × (progress_ids e.milestones ≡ ids (milestones program))
      × (length e.audit_event_ids ≡ e.revision)
  reached-valid = let s = reached-IsSound in (s.valid, s.aligned, s.audited)

  -- Let the program's graph be accepted, and let committed transactions lead from its
  -- enrollment `enrolled` to an enrollment whose status is completed. Its last completion
  -- decision is an approval that is recorded under the role `administrator` with a rationale
  -- of 1 to 4000 characters, and every milestone that the program marks as required has an
  -- item that is completed.
  pub completed-approved :
      e.status ≡ Enrollment.EnrollmentStatus.completed
      → IsCertified e × RequiredCompleted program e.milestones
  completed-approved h =
      let s = reached-IsSound in
      (
        approved-IsCertified e s.decisions (approved-status e s.valid h),
        is_ready-RequiredCompleted program e.milestones (s.ready (ground (arith, h))),
      )

  -- Let the program's graph be accepted. In every enrollment that committed transactions lead
  -- to from `enrolled`, all milestones are completed or one is neither locked nor completed.
  pub reached-open : (all_completed e.milestones || any is_open e.milestones) ≡ true
  reached-open =
      let s = reached-IsSound in
      closed-open (milestones program) e.milestones (milestones_unique program graph)
        (milestones-in_order program graph) s.aligned s.locking

progress_of-completed :
    (id : String) (ps : List MilestoneProgress) (p : MilestoneProgress)
    → all_completed ps ≡ true
    → progress_of id ps ≡ ok p
    → is_completed p.status ≡ true
unfolding progress_of
progress_of-completed id [] p a h = absurd (cc h)
progress_of-completed id (x ∷ ps) p a h = ground (arith, progress_of-completed id ps p)

module _ (e : EducationEnrollment) (done : all_completed e.milestones ≡ true) where
  start-refused :
      (now : ℕ) (event_id milestone_id : String) (expected : Option ℕ)
      → is_ok (start now event_id e expected milestone_id) ≡ false
  unfolding start
  start-refused now event_id milestone_id expected =
      elim (Result-cases (progress_of milestone_id e.milestones)) [
        | inl (x, f) ↦ ground (arith, f)
        | inr (p, f) ↦ ground (arith, f, progress_of-completed milestone_id e.milestones p done f)
      ]

  bind_project-refused :
      (now : ℕ) (event_id project_id : String) (program : EducationProgram) (m : MilestoneSpec)
      (context : ReviewContext) (organization_id : Option String)
      → is_ok (bind_project now event_id e program m context project_id organization_id) ≡ false
  unfolding bind_project
  bind_project-refused now event_id project_id program m context organization_id =
      elim (Result-cases (progress_of m.milestone_id e.milestones)) [
        | inl (x, f) ↦ ground (arith, f)
        | inr (p, f) ↦ ground (arith, f, progress_of-completed m.milestone_id e.milestones p done f)
      ]

  record_requirement-refused :
      (now : ℕ) (event_id : String) (program : EducationProgram) (m : MilestoneSpec)
      (r : RequirementResult)
      → is_ok (record_requirement now event_id e program m r) ≡ false
  unfolding record_requirement
  record_requirement-refused now event_id program m r =
      elim (Result-cases (progress_of m.milestone_id e.milestones)) [
        | inl (x, f) ↦ ground (arith, f)
        | inr (p, f) ↦ ground (arith, f, progress_of-completed m.milestone_id e.milestones p done f)
      ]

  decide-refused :
      may_progress e.status ≡ true
      → (event_id : String) (expected : Option ℕ) (q : DecisionRequest) (reopened : List String)
      → is_ok (decide event_id e expected q reopened) ≡ false
  unfolding decide
  decide-refused h event_id expected q reopened = ground arith

-- While an enrollment may progress and all its milestones are completed, no milestone can be
-- started, no project bound, no result recorded, and no completion decided.
pub finished-refused :
    (e : EducationEnrollment) (now : ℕ) (event_id milestone_id project_id : String)
    (expected : Option ℕ) (program : EducationProgram) (m : MilestoneSpec) (context : ReviewContext)
    (organization_id : Option String) (r : RequirementResult) (q : DecisionRequest)
    (reopened : List String)
    → may_progress e.status ≡ true
    → all_completed e.milestones ≡ true
    → (is_ok (start now event_id e expected milestone_id) ≡ false)
      × (is_ok (bind_project now event_id e program m context project_id organization_id) ≡ false)
      × (is_ok (record_requirement now event_id e program m r) ≡ false)
      × (is_ok (decide event_id e expected q reopened) ≡ false)
finished-refused e now event_id milestone_id project_id expected program m context organization_id r
      q reopened h done =
    (
      start-refused e done now event_id milestone_id expected,
      bind_project-refused e done now event_id project_id program m context organization_id,
      record_requirement-refused e done now event_id program m r,
      decide-refused e done h event_id expected q reopened,
    )
