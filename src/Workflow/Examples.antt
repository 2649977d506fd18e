-- ===== src/Workflow/Examples.antt =====
-- Runs of the workflow at concrete inputs.
use axcalib.Prelude.{has_text, String, ◌≡◌, ◌↔◌, refl, true, false, none, some, List, [], ◌∷◌, any}
use axcalib.Exec.{ok, is_ok}
use axcalib.Workflow.{
  WorkflowRecord, Trigger, transition, assign_mentor, recording_send, transitions,
  approval_transition_errors,
}
use axcalib.Workflow.{system, submitter, project_owner, mentor, administrator}
use axcalib.Workflow.{
  draft, completion_approval_pending, completion_registered, registration_under_review,
  registration_admin_approval_requested, completion_admin_approval_requested,
  publish_registration_draft, approve_completion_submission,
}
use axcalib.Workflow.Graph.{Edge, by_mentor, trigger_name, transition-Edge, Edge-transition}
use axcalib.Workflow.Gates.{
  Request, advance, appoint, Desk, step, run, asks, notifies, submission_approved,
  after_registration, certified_by_both_gates, registration_needs_administrator,
}
use axcalib.Workflow.Safety.{publication_fails_closed, IsSafeTable, approval_transition_errors_iff}

abbrev project : WorkflowRecord
project = record { project_id = "p1"; status = draft; mentor_ref = none }

-- A full life of a project with a mentor, the latest request first.
abbrev life : List Request
life =
    advance "accept_completion" administrator none none
    ∷ advance "publish_completion_draft" system none none
    ∷ advance "start_completion_evaluation" system none none
    ∷ advance "approve_completion_submission" mentor none none
    ∷ advance "approve_completion_submission" project_owner none none
    ∷ advance "request_completion_submission_approval" project_owner none none
    ∷ advance "request_completion" project_owner none none
    ∷ appoint "mentor-7" administrator
    ∷ advance "start_execution" project_owner none none
    ∷ advance "approve_registration" administrator none none
    ∷ advance "publish_registration_draft" system none none
    ∷ advance "start_registration_evaluation" system none none
    ∷ advance "submit_registration" submitter none none
    ∷ []

abbrev start : Desk
start = record { project = project; sent = [] }

certified_by_both_gates_example :
    (any (asks "approve_registration" administrator) life ≡ true)
    × (any (asks "accept_completion" administrator) life ≡ true)
    × (submission_approved (has_text (run start life).project.mentor_ref) life ≡ true)
    × (any (notifies registration_admin_approval_requested) (run start life).sent ≡ true)
    × (any (notifies completion_admin_approval_requested) (run start life).sent ≡ true)
unfolding run step transition assign_mentor recording_send
certified_by_both_gates_example = certified_by_both_gates project life refl refl

abbrev unapproved : List Request
unapproved =
    advance "approve_registration" project_owner none none
    ∷ advance "publish_registration_draft" system none none
    ∷ advance "start_registration_evaluation" system none none
    ∷ advance "submit_registration" submitter none none
    ∷ []

registration_needs_administrator_example :
    after_registration (run start unapproved).project.status ≡ false
registration_needs_administrator_example =
    registration_needs_administrator project unapproved refl refl

abbrev pending : WorkflowRecord
pending = record {
  project_id = "p1";
  status = completion_approval_pending;
  mentor_ref = some "mentor-7";
}

abbrev registered : WorkflowRecord
registered = record pending { status = completion_registered }

Edge-transition_example :
    (transition (some recording_send) pending "approve_completion_submission" mentor none none []).0
    ≡ ok registered
Edge-transition_example =
    Edge-transition pending approve_completion_submission mentor completion_registered none none []
      by_mentor

transition-Edge_example :
    (t : Trigger) × (◌≡◌ {A = String} "approve_completion_submission" (trigger_name t))
    × Edge true completion_approval_pending t mentor completion_registered
    × (registered ≡ record pending { status = completion_registered })
transition-Edge_example =
    transition-Edge (some recording_send) none none pending "approve_completion_submission" mentor
      [] registered Edge-transition_example

approval_transition_errors_iff_example :
    (approval_transition_errors transitions ≡ []) ↔ IsSafeTable transitions
approval_transition_errors_iff_example = approval_transition_errors_iff transitions

abbrev under_review : WorkflowRecord
under_review = record project { status = registration_under_review }

publication_fails_closed_example :
    is_ok
      (transition {N = Unit {0}} none under_review "publish_registration_draft" system none none
        tt).0
    ≡ false
unfolding transitions
publication_fails_closed_example =
    publication_fails_closed none tt tt under_review none none publish_registration_draft system
      refl
