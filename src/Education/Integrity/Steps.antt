-- ===== src/Education/Integrity/Steps.antt =====
-- An enrollment across its committed transactions (src/axcalib/programs/service.py, for the
-- validators of src/axcalib/schemas/education.py, which a changed copy does not run).
use axcalib.Prelude.{
  subst, ℕ, ◌+◌, String, ◌≡◌, refl, ap, ◌∙◌, true, Option, some, List, [], ◌∷◌, ◌++◌, arith,
  string_eq, option_eq,
}
use axcalib.Exec.{ok}
use axcalib.Education.Schema.{EducationProgram, unique_texts}
use axcalib.Education.Program.{milestones}
use axcalib.Education.Enrollment
use axcalib.Education.Enrollment.{
  RequirementResult, MilestoneProgress, ProgressStatus, locked, available, in_progress,
  waiting_review, needs_action, is_completed, progress_ok, progress_ids, EnrollmentStatus, active,
  completion_hitl_pending, CompletionDecision, DecisionCommand, approve, return_for_revision,
  EducationEnrollment, enrollment_ok, latest_command, decision_ok, is_approved, is_returned,
  last_command, has_notice,
}
use axcalib.Education.Integrity.Frontier.{closed-IsWithin, closed-reopen, completed_ids-reopen}
use axcalib.Education.Progress.{completed_ids}
use axcalib.Education.Actions.{
  DecisionRequest, decision_of, completion_request, decide, decided, reopen, is_pending,
}
use axcalib.Education.Integrity.{progress_ok-reopen, progress_ids-reopen}
use axcalib.Education.History.{saved, Step, started, bound, recorded_result, requested, decided_on}
use axcalib.Education.Integrity.Sound.{
  IsSound, length-snoc, has_notice-snoc, latest_command-snoc, decisions-snoc,
}
use axcalib.Education.Integrity.Activation.{
  IsActivated-IsSound, start-IsActivated, bind_project-IsActivated, record_requirement-IsActivated,
  valid-items,
}

completion_request-IsSound :
    (program : EducationProgram) (t : ℕ) (event_id : String) (e c : EducationEnrollment)
    → completion_request event_id program e ≡ some c
    → IsSound program e
    → IsSound program (saved t c)
unfolding completion_request enrollment_ok
completion_request-IsSound program t event_id e c h s =
    let requested : record e {
      status = completion_hitl_pending;
      notifications = e.notifications ++ (e.revision + 1) ∷ [];
      audit_event_ids = e.audit_event_ids ++ event_id ∷ [];
    }
        ≡ c =
      ground arith in
    subst (λ x. IsSound program (saved t x)) requested
      (record {
        valid = ground (arith, s.valid, has_notice-snoc e.notifications (e.revision + 1));
        aligned = s.aligned;
        locking = s.locking;
        ready = λ _. ground arith;
        decisions = s.decisions;
        audited = ground (arith, length-snoc e.audit_event_ids event_id, s.audited);
      })

decide-cases :
    (event_id : String) (expected : Option ℕ) (q : DecisionRequest) (reopened : List String)
    (e c : EducationEnrollment)
    → decide event_id e expected q reopened ≡ ok c
    → (is_pending e.status ≡ true)
      × (decision_ok (decision_of q) ≡ true)
      × (decided event_id e (decision_of q) reopened q.command ≡ ok c)
unfolding decide
decide-cases event_id expected q reopened e c h = (ground arith, ground arith, ground arith)

decided-IsSound :
    (program : EducationProgram) (t : ℕ) (event_id : String) (d : CompletionDecision)
    (reopened : List String) (e c : EducationEnrollment) (command : DecisionCommand)
    → command ≡ d.command
    → is_pending e.status ≡ true
    → decision_ok d ≡ true
    → decided event_id e d reopened command ≡ ok c
    → IsSound program e
    → IsSound program (saved t c)
unfolding decided enrollment_ok
decided-IsSound program t event_id d reopened e c approve q w k h s =
    let made : record e {
      status = Enrollment.EnrollmentStatus.completed;
      completion_decisions = e.completion_decisions ++ d ∷ [];
      audit_event_ids = e.audit_event_ids ++ event_id ∷ [];
    }
        ≡ c =
      ground arith in
    subst (λ x. IsSound program (saved t x)) made
      (record {
        valid = ground (arith, s.valid, q, latest_command-snoc e.completion_decisions d);
        aligned = s.aligned;
        locking = s.locking;
        ready = λ _. s.ready (ground (arith, w));
        decisions = decisions-snoc e.completion_decisions d s.decisions k;
        audited = ground (arith, length-snoc e.audit_event_ids event_id, s.audited);
      })
decided-IsSound program t event_id d reopened e c return_for_revision q w k h s =
    let made : record e {
      status = Enrollment.returned_for_revision;
      milestones = reopen reopened e.milestones;
      completion_decisions = e.completion_decisions ++ d ∷ [];
      audit_event_ids = e.audit_event_ids ++ event_id ∷ [];
    }
        ≡ c =
      ground arith in
    subst (λ x. IsSound program (saved t x)) made
      (record {
        valid = ground (
          arith,
          s.valid,
          q,
          latest_command-snoc e.completion_decisions d,
          progress_ok-reopen reopened e.milestones,
          ap unique_texts (progress_ids-reopen reopened e.milestones),
        );
        aligned = progress_ids-reopen reopened e.milestones ∙ s.aligned;
        locking =
            closed-IsWithin (completed_ids (reopen reopened e.milestones))
              (completed_ids e.milestones) (milestones program) (reopen reopened e.milestones)
              (completed_ids-reopen reopened e.milestones)
              (closed-reopen (completed_ids e.milestones) (milestones program) reopened e.milestones
                s.locking);
        ready = λ x. ground (arith, x);
        decisions = decisions-snoc e.completion_decisions d s.decisions k;
        audited = ground (arith, length-snoc e.audit_event_ids event_id, s.audited);
      })

-- Every committed transaction keeps an enrollment sound.
pub Step-IsSound :
    (program : EducationProgram) (e f : EducationEnrollment)
    → Step program e f
    → IsSound program e
    → IsSound program f
Step-IsSound program _ _ (started now t event_id milestone_id expected e c h) s =
    IsActivated-IsSound program e c event_id t s (
      start-IsActivated (milestones program) now event_id milestone_id expected e c h
        (valid-items e s.valid) s.locking)
Step-IsSound program _ _ (bound now t event_id project_id m context organization_id e c _ h) s =
    IsActivated-IsSound program e c event_id t s (
      bind_project-IsActivated (milestones program) now event_id project_id program m context
        organization_id e c h (valid-items e s.valid) s.locking)
Step-IsSound program _ _ (recorded_result now t event_id m r e c _ h) s =
    IsActivated-IsSound program e c event_id t s
      (record_requirement-IsActivated now event_id program m r e c h (valid-items e s.valid))
Step-IsSound program _ _ (requested t event_id e c _ h) s =
    completion_request-IsSound program t event_id e c h s
Step-IsSound program _ _ (decided_on t event_id expected q reopened e c h) s =
    let (w, k, g) = decide-cases event_id expected q reopened e c h in
    decided-IsSound program t event_id (decision_of q) reopened e c q.command refl w k g s
