-- ===== src/Workflow/Gates.antt =====
-- What every run of the workflow shows about its two gates: who decided and who was notified.
use axcalib.Prelude.{
  has_text, ℕ, String, ◌≡◌, refl, Bool, true, false, ◌&&◌, ◌||◌, Option, none, some, List, [], ◌∷◌,
  ◌++◌, arith, ◌==◌, string_eq, any, nat_beq, leb,
}
use axcalib.Exec.{Result, ok, err}
use axcalib.Workflow.{
  ActorRole, ProjectStatus, WorkflowRecord, Trigger, NotificationEvent, GateEvent, WorkflowError,
  transition, assign_mentor, role_rank, status_rank, recording_send, apply_rule, found_rule,
  find_trigger, trigger_names, transitions, mentor_check, notify, notice,
}
use axcalib.Workflow.{project_owner, mentor, administrator}
use axcalib.Workflow.{
  draft, completion_accepted, registration_admin_approval_requested,
  completion_admin_approval_requested,
}
use axcalib.Workflow.Graph.{Edge, submit_self, trigger_name, transition-Edge, find_trigger-name}

-- What an actor asks of a project.
pub data Request : Type 0 where
  advance : String → ActorRole → Option ℕ → Option String → Request
  appoint : String → ActorRole → Request

pub record Desk : Type 0 where
  pub project : WorkflowRecord
  pub sent : List NotificationEvent

-- A call that raises leaves the record; what it sent stays sent.
abbrev keep : WorkflowRecord → Result WorkflowError WorkflowRecord → WorkflowRecord
keep r (ok r') = r'
keep r (err e) = r

unfoldable pub step : Request → Desk → Desk
step (advance trigger role revision report) d =
    let (result, sent') =
      transition (some recording_send) d.project trigger role revision report d.sent in
    record { project = keep d.project result; sent = sent' }
step (appoint ref role) d = record d { project = keep d.project (assign_mentor d.project ref role) }

-- A run of the workflow over its requests, the latest first.
unfoldable pub run : Desk → List Request → Desk
run d [] = d
run d (q ∷ earlier) = step q (run d earlier)

-- Some request of the list calls the trigger in the role.
abbrev pub asks : String → ActorRole → Request → Bool
asks name role (advance trigger r _ _) = trigger == name && nat_beq (role_rank r) (role_rank role)
asks name role (appoint _ _) = false

abbrev event_rank : GateEvent → ℕ
event_rank registration_admin_approval_requested = 0
event_rank completion_admin_approval_requested = 1

-- The administrator was asked for this project by this event.
abbrev pub notifies : GateEvent → NotificationEvent → Bool
notifies g e = nat_beq (event_rank g) (event_rank e.event_type)

any_snoc {ℓ} :
    {A : Type ℓ} (p : A → Bool) (xs : List A) (x : A) → any p (xs ++ x ∷ []) ≡ (any p xs || p x)
any_snoc p [] x = ground arith
any_snoc p (y ∷ ys) x = ground (arith, any_snoc p ys x)

module _ (r : WorkflowRecord) (revision : Option ℕ) (report : Option String)
    (sent : List NotificationEvent) where
  notify_keeps :
      (p : NotificationEvent → Bool) (o : Option GateEvent)
      → any p sent ≡ true
      → any p (notify (some recording_send) o r revision report sent).1 ≡ true
  unfolding notify recording_send
  notify_keeps p none h = h
  notify_keeps p (some g) h = ground (arith, any_snoc p sent (notice g r revision report))

  apply_rule_keeps :
      (p : NotificationEvent → Bool) (t : Trigger) (role : ActorRole)
      → any p sent ≡ true
      → any p (apply_rule (some recording_send) r t role revision report sent).1 ≡ true
  unfolding apply_rule mentor_check
  apply_rule_keeps p t role h = ground (arith, notify_keeps p (transitions t).notification_event)

  transition_keeps :
      (p : NotificationEvent → Bool) (trigger : String) (role : ActorRole)
      → any p sent ≡ true
      → any p (transition (some recording_send) r trigger role revision report sent).1 ≡ true
  unfolding transition
  transition_keeps p trigger role h = found (find_trigger trigger trigger_names)
    where
      found :
          (o : Option Trigger)
          → any p (found_rule o (some recording_send) r role revision report sent).1 ≡ true
      found none = h
      found (some t) = apply_rule_keeps p t role h

  -- A publication that succeeds has sent its notice.
  publish_sends :
      (g : GateEvent) (t : Trigger) (role : ActorRole) (r' : WorkflowRecord)
      → (transitions t).notification_event ≡ some g
      → (apply_rule (some recording_send) r t role revision report sent).0 ≡ ok r'
      → any (notifies g) (apply_rule (some recording_send) r t role revision report sent).1 ≡ true
  unfolding apply_rule mentor_check notify recording_send
  publish_sends g t role r' e h =
      ground (arith, any_snoc (notifies g) sent (notice g r revision report))

  transition_name :
      (t : Trigger) (role : ActorRole)
      → transition (some recording_send) r (trigger_name t) role revision report sent
        ≡ apply_rule (some recording_send) r t role revision report sent
  unfolding transition
  transition_name t role = rw (find_trigger-name t)

  transition_sends :
      (t : Trigger) (role : ActorRole) (r' : WorkflowRecord) (g : GateEvent)
      → (transitions t).notification_event ≡ some g
      → (transition (some recording_send) r (trigger_name t) role revision report sent).0 ≡ ok r'
      → any
          (notifies g)
          (transition (some recording_send) r (trigger_name t) role revision report sent).1
        ≡ true
  transition_sends t role r' g e = rw (transition_name t role) (publish_sends g t role r' e)

-- The milestones behind a status.
abbrev pub after_registration_notice : ProjectStatus → Bool
after_registration_notice s = leb 3 (status_rank s)

abbrev pub after_registration : ProjectStatus → Bool
after_registration s = nat_beq (status_rank s) 4 || leb 6 (status_rank s)

abbrev pub after_submission : ProjectStatus → Bool
after_submission s = leb 9 (status_rank s)

abbrev pub after_completion_notice : ProjectStatus → Bool
after_completion_notice s = leb 11 (status_rank s)

-- Who approves a completion submission: the mentor if one is assigned.
abbrev pub submission_approved : Bool → List Request → Bool
submission_approved true qs = any (asks "approve_completion_submission" mentor) qs
submission_approved false qs =
    any (asks "approve_completion_submission" project_owner) qs
    || any (asks "approve_completion_submission" administrator) qs

-- What the status of a desk says of the requests so far and of the notices sent.
pub record IsGated (d : Desk) (qs : List Request) : Type 0 where
  pub registration_notice :
      after_registration_notice d.project.status ≡ true
      → any (notifies registration_admin_approval_requested) d.sent ≡ true
  pub registration :
      after_registration d.project.status ≡ true
      → any (asks "approve_registration" administrator) qs ≡ true
  pub submission :
      after_submission d.project.status ≡ true
      → submission_approved (has_text d.project.mentor_ref) qs ≡ true
  pub completion_notice :
      after_completion_notice d.project.status ≡ true
      → any (notifies completion_admin_approval_requested) d.sent ≡ true
  pub completion :
      d.project.status ≡ completion_accepted
      → any (asks "accept_completion" administrator) qs ≡ true

-- Notices and requests only accumulate.
sent-IsGated :
    (qs : List Request) (d : Desk) (sent' : List NotificationEvent)
    → ((g : GateEvent) → any (notifies g) d.sent ≡ true → any (notifies g) sent' ≡ true)
    → IsGated d qs
    → IsGated (record d { sent = sent' }) qs
sent-IsGated qs d sent' keeps h = record {
  registration_notice = λ a. keeps registration_admin_approval_requested (h.registration_notice a);
  registration = h.registration;
  submission = h.submission;
  completion_notice = λ a. keeps completion_admin_approval_requested (h.completion_notice a);
  completion = h.completion;
}

more_approvals :
    (q : Request) (qs : List Request) (m : Bool)
    → submission_approved m qs ≡ true
    → submission_approved m (q ∷ qs) ≡ true
more_approvals q qs true e = ground arith
more_approvals q qs false e = ground arith

more-IsGated : (q : Request) (qs : List Request) (d : Desk) → IsGated d qs → IsGated d (q ∷ qs)
more-IsGated q qs d h = record {
  registration_notice = h.registration_notice;
  registration = λ a. ground (arith, h.registration a);
  submission = λ a. more_approvals q qs (has_text d.project.mentor_ref) (h.submission a);
  completion_notice = h.completion_notice;
  completion = λ a. ground (arith, h.completion a);
}

module _ (revision : Option ℕ) (report : Option String) (qs : List Request) where
  -- An edge of the diagram keeps the account, if its notice was sent.
  Edge-IsGated :
      {m : Bool} {s u : ProjectStatus} {t : Trigger} {role : ActorRole}
      → Edge m s t role u
      → (d : Desk) → d.project.status ≡ s
      → has_text d.project.mentor_ref ≡ m
      → ((g : GateEvent)
          → (transitions t).notification_event ≡ some g
          → any (notifies g) d.sent ≡ true)
      → IsGated d qs
      → IsGated
          (record d { project = record d.project { status = u } })
          (advance (trigger_name t) role revision report ∷ qs)
  unfolding transitions
  Edge-IsGated submit_self d e me sends h = ground (
    arith,
    sends registration_admin_approval_requested,
    sends completion_admin_approval_requested,
  )
  Edge-IsGated _ d e me sends h = ground (
    arith,
    sends registration_admin_approval_requested,
    sends completion_admin_approval_requested,
  )

appoint-IsGated :
    (ref : String) (role : ActorRole) (d : Desk) (qs : List Request)
    → IsGated d qs
    → IsGated (step (appoint ref role) d) (appoint ref role ∷ qs)
unfolding step assign_mentor
appoint-IsGated ref role d qs h = ground arith

-- The three outcomes of a step: the desk as it was with more notices, an edge, an appointment.
module _ (revision : Option ℕ) (report : Option String) (d : Desk) (qs : List Request)
    (h : IsGated d qs) where
  keeps :
      (trigger : String) (role : ActorRole) (g : GateEvent)
      → any (notifies g) d.sent ≡ true
      → any
          (notifies g)
          (transition (some recording_send) d.project trigger role revision report d.sent).1
        ≡ true
  keeps trigger role g = transition_keeps d.project revision report d.sent (notifies g) trigger role

  advance-IsGated :
      (trigger : String) (role : ActorRole) (result : Result WorkflowError WorkflowRecord)
      → (transition (some recording_send) d.project trigger role revision report d.sent).0 ≡ result
      → IsGated
          (step (advance trigger role revision report) d)
          (advance trigger role revision report ∷ qs)
  unfolding step
  advance-IsGated trigger role (err x) e = rw e (
      more-IsGated (advance trigger role revision report) qs _
        (sent-IsGated qs d _ (keeps trigger role) h))
  advance-IsGated trigger role (ok r') e =
      let (t, name, edge, same) =
        transition-Edge (some recording_send) revision report d.project trigger role d.sent r' e in
      let sends = transition_sends d.project revision report d.sent t role r' in
      rw (e, same, name)
        (Edge-IsGated revision report qs edge _ refl refl
          (λ g notice. sends g notice (rw name at e))
          (sent-IsGated qs d _ (keeps (trigger_name t) role) h))

step-IsGated :
    (q : Request) (d : Desk) (qs : List Request) → IsGated d qs → IsGated (step q d) (q ∷ qs)
step-IsGated (advance trigger role revision report) d qs h =
    advance-IsGated revision report d qs h trigger role _ refl
step-IsGated (appoint ref role) d qs h = appoint-IsGated ref role d qs h

run-IsGated : (d : Desk) (qs : List Request) → IsGated d [] → IsGated (run d qs) qs
unfolding run
run-IsGated d [] h = h
run-IsGated d (q ∷ earlier) h = step-IsGated q (run d earlier) earlier (run-IsGated d earlier h)

draft-IsGated :
    (r : WorkflowRecord) → r.status ≡ draft → IsGated (record { project = r; sent = [] }) []
draft-IsGated r e = ground arith

-- Whatever requests a project in draft receives, in whatever order and with whatever outcomes: if it
-- ends in `completion_accepted`, an administrator asked for the registration's approval and for the
-- completion's acceptance, the submission was approved by a mentor if one is assigned and else by the
-- owner or an administrator, and both approval notices were sent.
pub certified_by_both_gates :
    (r : WorkflowRecord) (requests : List Request)
    → r.status ≡ draft
    → (run (record { project = r; sent = [] }) requests).project.status ≡ completion_accepted
    → let d = run (record { project = r; sent = [] }) requests in
      (any (asks "approve_registration" administrator) requests ≡ true)
      × (any (asks "accept_completion" administrator) requests ≡ true)
      × (submission_approved (has_text d.project.mentor_ref) requests ≡ true)
      × (any (notifies registration_admin_approval_requested) d.sent ≡ true)
      × (any (notifies completion_admin_approval_requested) d.sent ≡ true)
certified_by_both_gates r requests e done =
    let g = run-IsGated (record { project = r; sent = [] }) requests (draft-IsGated r e) in
    (
      g.registration (rw done refl),
      g.completion done,
      g.submission (rw done refl),
      g.registration_notice (rw done refl),
      g.completion_notice (rw done refl),
    )

-- While no request of an administrator has asked for the registration's approval, no sequence
-- of requests has a project in draft past the registration gate.
pub registration_needs_administrator :
    (r : WorkflowRecord) (requests : List Request)
    → r.status ≡ draft
    → any (asks "approve_registration" administrator) requests ≡ false
    → after_registration (run (record { project = r; sent = [] }) requests).project.status ≡ false
registration_needs_administrator r requests e none_asked =
    let g = run-IsGated (record { project = r; sent = [] }) requests (draft-IsGated r e) in
    ground (arith, g.registration)
