-- ===== src/Workflow/Graph.antt =====
-- The transition diagram of the two gates as a relation, and `transition` against it.
use axcalib.Prelude.{
  has_text, ℕ, String, ◌≡◌, refl, All, Bool, true, false, not, ◌&&◌, Option, none, some, List, [],
  ◌∷◌, arith, eq_iff, string_eq,
}
use axcalib.Exec.{ok}
use axcalib.Workflow.{
  ActorRole, ProjectStatus, WorkflowRecord, Trigger, Notifier, NotificationEvent, trigger_names,
  find_trigger, transition, apply_rule, found_rule, transitions, same_status, has_role,
  is_submission_approval, is_mentor, notify, mentor_check, recording_send,
}
use axcalib.Workflow.{system, submitter, project_owner, mentor, administrator}
use axcalib.Workflow.{
  draft, registration_ready, registration_under_review, registration_hitl_pending,
  registration_approved, registration_rejected, in_progress, completion_ready,
  completion_approval_pending, completion_registered, completion_under_review,
  completion_hitl_pending, completion_accepted, completion_not_accepted,
}
use axcalib.Workflow.{
  submit_registration, start_registration_evaluation, publish_registration_draft,
  approve_registration, reject_registration, start_execution, request_completion,
  request_completion_submission_approval, approve_completion_submission,
  start_completion_evaluation, publish_completion_draft, accept_completion, decline_completion,
}

-- Who may take which edge; `m` says whether a mentor is assigned.
pub data Edge : Bool → ProjectStatus → Trigger → ActorRole → ProjectStatus → Type 0 where
  submit_self : {m : Bool} → Edge m draft submit_registration submitter registration_ready
  submit_owner : {m : Bool} → Edge m draft submit_registration project_owner registration_ready
  evaluate_registration :
      {m : Bool}
      → Edge m registration_ready start_registration_evaluation system registration_under_review
  publish_registration :
      {m : Bool}
      → Edge m registration_under_review publish_registration_draft system registration_hitl_pending
  approve :
      {m : Bool}
      → Edge m registration_hitl_pending approve_registration administrator registration_approved
  reject :
      {m : Bool}
      → Edge m registration_hitl_pending reject_registration administrator registration_rejected
  start_owner : {m : Bool} → Edge m registration_approved start_execution project_owner in_progress
  start_admin : {m : Bool} → Edge m registration_approved start_execution administrator in_progress
  ready : {m : Bool} → Edge m in_progress request_completion project_owner completion_ready
  ask :
      {m : Bool}
      → Edge m completion_ready request_completion_submission_approval project_owner
          completion_approval_pending
  by_mentor :
      Edge true completion_approval_pending approve_completion_submission mentor
        completion_registered
  by_owner :
      Edge false completion_approval_pending approve_completion_submission project_owner
        completion_registered
  by_admin :
      Edge false completion_approval_pending approve_completion_submission administrator
        completion_registered
  evaluate_completion :
      {m : Bool}
      → Edge m completion_registered start_completion_evaluation system completion_under_review
  publish_completion :
      {m : Bool}
      → Edge m completion_under_review publish_completion_draft system completion_hitl_pending
  accept :
      {m : Bool}
      → Edge m completion_hitl_pending accept_completion administrator completion_accepted
  decline :
      {m : Bool}
      → Edge m completion_hitl_pending decline_completion administrator completion_not_accepted

ruleset edges = (
  submit_self, submit_owner, evaluate_registration, publish_registration, approve, reject,
  start_owner, start_admin, ready, ask, by_mentor, by_owner, by_admin, evaluate_completion,
  publish_completion, accept, decline,
)

abbrev pub trigger_name : Trigger → String
trigger_name submit_registration = "submit_registration"
trigger_name start_registration_evaluation = "start_registration_evaluation"
trigger_name publish_registration_draft = "publish_registration_draft"
trigger_name approve_registration = "approve_registration"
trigger_name reject_registration = "reject_registration"
trigger_name start_execution = "start_execution"
trigger_name request_completion = "request_completion"
trigger_name request_completion_submission_approval = "request_completion_submission_approval"
trigger_name approve_completion_submission = "approve_completion_submission"
trigger_name start_completion_evaluation = "start_completion_evaluation"
trigger_name publish_completion_draft = "publish_completion_draft"
trigger_name accept_completion = "accept_completion"
trigger_name decline_completion = "decline_completion"

-- Each trigger is found under its name,
pub find_trigger-name : (t : Trigger) → find_trigger (trigger_name t) trigger_names ≡ some t
unfolding find_trigger
find_trigger-name submit_registration = refl
find_trigger-name _ = refl

-- and under no other.
find_trigger_sound :
    (s : String) (t : Trigger) (l : List (String × Trigger))
    → All (λ p. p.0 ≡ trigger_name p.1) l
    → find_trigger s l ≡ some t
    → s ≡ trigger_name t
unfolding find_trigger
find_trigger_sound s t [] a h = cc
find_trigger_sound s t ((name, u) ∷ rest) a h =
    ground (arith, eq_iff name s, find_trigger_sound s t rest a.1)

pub name-find_trigger :
    (s : String) (t : Trigger) → find_trigger s trigger_names ≡ some t → s ≡ trigger_name t
name-find_trigger s t h = find_trigger_sound s t trigger_names names h
  where
    names : All (λ p. p.0 ≡ trigger_name p.1) trigger_names
    names = (
      refl,
      (
        refl,
        (refl, (refl, (refl, (refl, (refl, (refl, (refl, (refl, (refl, (refl, (refl, tt))))))))))),
      ),
    )

same_status→eq : (a b : ProjectStatus) → same_status a b ≡ true → a ≡ b
same_status→eq draft b h = ground arith
same_status→eq _ b h = ground arith

-- An edge from what the tests of `transition` found.
Edge-of :
    (m : Bool) (t : Trigger) (role : ActorRole)
    → has_role role (transitions t).roles ≡ true
    → (is_submission_approval t && (m && not (is_mentor role))) ≡ false
    → (is_submission_approval t
        && (not m && not (has_role role (project_owner ∷ administrator ∷ []))))
      ≡ false
    → Edge m (transitions t).source t role (transitions t).target
unfolding transitions is_submission_approval is_mentor
Edge-of m submit_registration submitter h u v = submit_self
Edge-of m submit_registration project_owner h u v = submit_owner
Edge-of true approve_completion_submission mentor h u v = by_mentor
Edge-of false approve_completion_submission project_owner h u v = by_owner
Edge-of false approve_completion_submission administrator h u v = by_admin
Edge-of m start_registration_evaluation system h u v = evaluate_registration
Edge-of m publish_registration_draft system h u v = publish_registration
Edge-of m approve_registration administrator h u v = approve
Edge-of m reject_registration administrator h u v = reject
Edge-of m start_execution project_owner h u v = start_owner
Edge-of m start_execution administrator h u v = start_admin
Edge-of m request_completion project_owner h u v = ready
Edge-of m request_completion_submission_approval project_owner h u v = ask
Edge-of m start_completion_evaluation system h u v = evaluate_completion
Edge-of m publish_completion_draft system h u v = publish_completion
Edge-of m accept_completion administrator h u v = accept
Edge-of m decline_completion administrator h u v = decline
Edge-of _ _ _ h u v = cc

module _ {N : Type 0} (notifier : Option (Notifier N)) (revision : Option ℕ)
    (report : Option String) where
  -- What a success of `apply_rule` shows: each guard passed, the notification was sent.
  record Passed (r : WorkflowRecord) (t : Trigger) (role : ActorRole) (n : N) (r' : WorkflowRecord)
      : Type 0 where
    at_source : r.status ≡ (transitions t).source
    edge : Edge (has_text r.mentor_ref) (transitions t).source t role (transitions t).target
    notified : (notify notifier (transitions t).notification_event r revision report n).0 ≡ ok tt
    result : r' ≡ record r { status = (transitions t).target }

  apply_rule-Passed :
      (r : WorkflowRecord) (t : Trigger) (role : ActorRole) (n : N) (r' : WorkflowRecord)
      → (apply_rule notifier r t role revision report n).0 ≡ ok r'
      → Passed r t role n r'
  unfolding apply_rule mentor_check
  apply_rule-Passed r t role n r' h = record {
    at_source = same_status→eq _ _ (ground arith);
    edge = Edge-of _ t role (ground arith) (ground arith) (ground arith);
    notified = ground arith;
    result = ground arith;
  }

  found_rule-Edge :
      (o : Option Trigger) (r : WorkflowRecord) (role : ActorRole) (n : N) (r' : WorkflowRecord)
      → (found_rule o notifier r role revision report n).0 ≡ ok r'
      → (t : Trigger) × (o ≡ some t)
        × Edge (has_text r.mentor_ref) r.status t role r'.status
        × (r' ≡ record r { status = r'.status })
  unfolding found_rule
  found_rule-Edge none r role n r' h = cc
  found_rule-Edge (some t) r role n r' h =
      let p = apply_rule-Passed r t role n r' h in
      (t, refl, rw (p.at_source, p.result) p.edge, cc p.result)

  -- Whatever the notifier, a transition that succeeds names a trigger of the table and takes an edge
  -- of the diagram that the actor's role may take, and changes nothing but the status.
  pub transition-Edge :
      (r : WorkflowRecord) (trigger : String) (role : ActorRole) (n : N) (r' : WorkflowRecord)
      → (transition notifier r trigger role revision report n).0 ≡ ok r'
      → (t : Trigger) × (trigger ≡ trigger_name t)
        × Edge (has_text r.mentor_ref) r.status t role r'.status
        × (r' ≡ record r { status = r'.status })
  unfolding transition
  transition-Edge r trigger role n r' h =
      let (t, e, edge, same) = found_rule-Edge (find_trigger trigger trigger_names) r role n r' h in
      (t, name-find_trigger trigger t e, edge, same)

module _ (revision : Option ℕ) (report : Option String) (sent : List NotificationEvent) where
  take-Edge :
      {m : Bool} {s u : ProjectStatus} {t : Trigger} {role : ActorRole}
      → Edge m s t role u
      → (r : WorkflowRecord) → r.status ≡ s
      → has_text r.mentor_ref ≡ m
      → (apply_rule (some recording_send) r t role revision report sent).0
        ≡ ok (record r { status = u })
  unfolding transition recording_send
  take-Edge submit_self r e d = ground arith
  take-Edge _ r e d = ground arith

-- With a notifier that records, every edge of the diagram is a transition that succeeds.
pub Edge-transition :
    (r : WorkflowRecord) (t : Trigger) (role : ActorRole) (u : ProjectStatus) (revision : Option ℕ)
    (report : Option String) (sent : List NotificationEvent)
    → Edge (has_text r.mentor_ref) r.status t role u
    → (transition (some recording_send) r (trigger_name t) role revision report sent).0
      ≡ ok (record r { status = u })
unfolding transition recording_send
Edge-transition r t role u revision report sent e =
    rw (find_trigger-name t) (take-Edge revision report sent e r refl refl)
