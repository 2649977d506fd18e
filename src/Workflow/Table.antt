-- ===== src/Workflow/Table.antt =====
-- The roles, the statuses, the record and the table `TRANSITIONS` of
-- src/axcalib/workflows/two_gate.py.
use axcalib.Prelude.{
  ℕ, String, Bool, Option, none, some, List, [], ◌∷◌, any, nat_beq, ◌==◌, string_eq, if◌then◌else◌,
}

pub data ActorRole : Type 0 where
  system submitter project_owner mentor administrator : ActorRole

abbrev pub role_rank : ActorRole → ℕ
role_rank system = 0
role_rank submitter = 1
role_rank project_owner = 2
role_rank mentor = 3
role_rank administrator = 4

-- `actor_role in roles`
abbrev pub has_role : ActorRole → List ActorRole → Bool
has_role r roles = any (λ x. nat_beq (role_rank r) (role_rank x)) roles

pub data ProjectStatus : Type 0 where
  draft registration_ready registration_under_review registration_hitl_pending : ProjectStatus
  registration_approved registration_rejected in_progress completion_ready : ProjectStatus
  completion_approval_pending completion_registered completion_under_review : ProjectStatus
  completion_hitl_pending completion_accepted completion_not_accepted : ProjectStatus

abbrev pub status_rank : ProjectStatus → ℕ
status_rank draft = 0
status_rank registration_ready = 1
status_rank registration_under_review = 2
status_rank registration_hitl_pending = 3
status_rank registration_approved = 4
status_rank registration_rejected = 5
status_rank in_progress = 6
status_rank completion_ready = 7
status_rank completion_approval_pending = 8
status_rank completion_registered = 9
status_rank completion_under_review = 10
status_rank completion_hitl_pending = 11
status_rank completion_accepted = 12
status_rank completion_not_accepted = 13

abbrev pub same_status : ProjectStatus → ProjectStatus → Bool
same_status a b = nat_beq (status_rank a) (status_rank b)

pub record WorkflowRecord : Type 0 where
  pub project_id : String
  pub status : ProjectStatus
  pub mentor_ref : Option String

-- The two notification events of the table.
pub data GateEvent : Type 0 where
  registration_admin_approval_requested completion_admin_approval_requested : GateEvent

pub record TransitionRule : Type 0 where
  pub source : ProjectStatus
  pub target : ProjectStatus
  pub roles : List ActorRole
  pub notification_event : Option GateEvent

-- The keys of `TRANSITIONS`, in its order.
pub data Trigger : Type 0 where
  submit_registration start_registration_evaluation publish_registration_draft : Trigger
  approve_registration reject_registration start_execution request_completion : Trigger
  request_completion_submission_approval approve_completion_submission : Trigger
  start_completion_evaluation publish_completion_draft accept_completion : Trigger
  decline_completion : Trigger

abbrev rule : ProjectStatus → ProjectStatus → List ActorRole → TransitionRule
rule a b roles = record { source = a; target = b; roles = roles; notification_event = none }

unfoldable pub transitions : Trigger → TransitionRule
transitions submit_registration = rule draft registration_ready (submitter ∷ project_owner ∷ [])
transitions start_registration_evaluation =
    rule registration_ready registration_under_review (system ∷ [])
transitions publish_registration_draft = record {
  source = registration_under_review;
  target = registration_hitl_pending;
  roles = system ∷ [];
  notification_event = some registration_admin_approval_requested;
}
transitions approve_registration =
    rule registration_hitl_pending registration_approved (administrator ∷ [])
transitions reject_registration =
    rule registration_hitl_pending registration_rejected (administrator ∷ [])
transitions start_execution =
    rule registration_approved in_progress (project_owner ∷ administrator ∷ [])
transitions request_completion = rule in_progress completion_ready (project_owner ∷ [])
transitions request_completion_submission_approval =
    rule completion_ready completion_approval_pending (project_owner ∷ [])
transitions approve_completion_submission =
    rule completion_approval_pending completion_registered
      (mentor ∷ project_owner ∷ administrator ∷ [])
transitions start_completion_evaluation =
    rule completion_registered completion_under_review (system ∷ [])
transitions publish_completion_draft = record {
  source = completion_under_review;
  target = completion_hitl_pending;
  roles = system ∷ [];
  notification_event = some completion_admin_approval_requested;
}
transitions accept_completion =
    rule completion_hitl_pending completion_accepted (administrator ∷ [])
transitions decline_completion =
    rule completion_hitl_pending completion_not_accepted (administrator ∷ [])

-- The dictionary's keys with their triggers; `TRANSITIONS.get` is a lookup of the name.
abbrev pub trigger_names : List (String × Trigger)
trigger_names =
    ("submit_registration", submit_registration)
    ∷ ("start_registration_evaluation", start_registration_evaluation)
    ∷ ("publish_registration_draft", publish_registration_draft)
    ∷ ("approve_registration", approve_registration)
    ∷ ("reject_registration", reject_registration)
    ∷ ("start_execution", start_execution)
    ∷ ("request_completion", request_completion)
    ∷ ("request_completion_submission_approval", request_completion_submission_approval)
    ∷ ("approve_completion_submission", approve_completion_submission)
    ∷ ("start_completion_evaluation", start_completion_evaluation)
    ∷ ("publish_completion_draft", publish_completion_draft)
    ∷ ("accept_completion", accept_completion)
    ∷ ("decline_completion", decline_completion)
    ∷ []

unfoldable pub find_trigger : String → List (String × Trigger) → Option Trigger
find_trigger s [] = none
find_trigger s ((name, t) ∷ rest) = if name == s then some t else find_trigger s rest
