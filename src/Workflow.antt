-- ===== src/Workflow.antt =====
-- The two-gate workflow of a project (src/axcalib/workflows/two_gate.py): the operations of
-- `TwoGateWorkflow` and the check of the table. A notifier is its `send`, over a state of its own;
-- an adapter that raises returns an error. `Table` has the statuses and the transition table, the
-- other children prove.
mod Table
pub mod Graph
pub mod Gates
pub mod Safety
mod Examples
unfoldable pub use Table.*
use Prim.Native.Char.{code}
use axcalib.Prelude.{
  ℕ, String, Bool, true, false, not, ◌&&◌, ◌||◌, Option, none, some, List, [], ◌∷◌, ◌++◌, all,
  nat_beq, leb, ◌==◌, string_eq, is_none, has_text, if◌then◌else◌,
}
use axcalib.Exec.{Result, ok, err, Exec, ◌>>=◌, ◌>>◌, pure, raise, reject_if}

-- `WorkflowError`, one constructor for each `raise`; `notifier_failed` is an adapter's exception.
pub data WorkflowError : Type 0 where
  unknown_trigger wrong_source role_not_allowed mentor_must_approve : WorkflowError
  owner_or_admin_must_approve notification_required notifier_failed : WorkflowError
  may_not_assign_mentor assignment_too_early empty_mentor_ref : WorkflowError

-- notifications/base.py; the stage is "registration" or "completion".
pub record NotificationEvent : Type 0 where
  pub event_type : GateEvent
  pub project_id : String
  pub stage : String
  pub required_role : ActorRole
  pub revision : Option ℕ
  pub report_ref : Option String

abbrev pub Notifier : Type 0 → Type 0
Notifier N = NotificationEvent → Exec N WorkflowError (Unit {0})

-- `RecordingNotifier.send`
unfoldable pub recording_send : Notifier (List NotificationEvent)
recording_send event events = (ok tt, events ++ event ∷ [])

-- `"registration" in rule.notification_event`
abbrev stage_of : GateEvent → String
stage_of registration_admin_approval_requested = "registration"
stage_of completion_admin_approval_requested = "completion"

is_submission_approval : Trigger → Bool
is_submission_approval approve_completion_submission = true
is_submission_approval _ = false

is_mentor : ActorRole → Bool
is_mentor mentor = true
is_mentor _ = false

-- The mentor rules of `approve_completion_submission`.
mentor_check : {N : Type 0} → WorkflowRecord → Trigger → ActorRole → Exec N WorkflowError (Unit {0})
unfolding is_submission_approval is_mentor
mentor_check r t role = do
  reject_if (is_submission_approval t && (has_text r.mentor_ref && not (is_mentor role)))
      mentor_must_approve
  reject_if
      (is_submission_approval t
        && (not (has_text r.mentor_ref)
            && not (has_role role (project_owner ∷ administrator ∷ []))))
      owner_or_admin_must_approve

abbrev pub notice : GateEvent → WorkflowRecord → Option ℕ → Option String → NotificationEvent
notice event r revision report = record {
  event_type = event;
  project_id = r.project_id;
  stage = stage_of event;
  required_role = administrator;
  revision = revision;
  report_ref = report;
}

-- The notification that a rule requires, sent before the status changes.
notify :
    {N : Type 0}
    → Option (Notifier N)
    → Option GateEvent
    → WorkflowRecord
    → Option ℕ
    → Option String
    → Exec N WorkflowError (Unit {0})
notify notifier none r revision report = pure tt
notify none (some event) r revision report = raise notification_required
notify (some send) (some event) r revision report = send (notice event r revision report)

-- `TwoGateWorkflow.transition` behind the lookup of the rule.
apply_rule :
    {N : Type 0}
    → Option (Notifier N)
    → WorkflowRecord
    → Trigger
    → ActorRole
    → Option ℕ
    → Option String
    → Exec N WorkflowError WorkflowRecord
apply_rule notifier r t role revision report = do
  reject_if (not (same_status r.status (transitions t).source)) wrong_source
  reject_if (not (has_role role (transitions t).roles)) role_not_allowed
  mentor_check r t role
  notify notifier (transitions t).notification_event r revision report
  pure (record r { status = (transitions t).target })

found_rule :
    {N : Type 0}
    → Option Trigger
    → Option (Notifier N)
    → WorkflowRecord
    → ActorRole
    → Option ℕ
    → Option String
    → Exec N WorkflowError WorkflowRecord
found_rule none notifier r role revision report = raise unknown_trigger
found_rule (some t) notifier r role revision report = apply_rule notifier r t role revision report

unfoldable pub transition :
    {N : Type 0}
    → Option (Notifier N)
    → WorkflowRecord
    → String
    → ActorRole
    → Option ℕ
    → Option String
    → Exec N WorkflowError WorkflowRecord
unfolding apply_rule find_trigger found_rule transitions mentor_check notify
transition notifier r trigger role revision report =
    found_rule (find_trigger trigger trigger_names) notifier r role revision report

-- `not mentor_ref.strip()`: nothing but the white space of `str.isspace`.
abbrev is_space : ℕ → Bool
is_space c =
    (leb 9 c && leb c 13)
    || ((leb 28 c && leb c 32)
        || (nat_beq c 133
            || (nat_beq c 160
                || (nat_beq c 5760
                    || ((leb 8192 c && leb c 8202)
                        || (nat_beq c 8232
                            || (nat_beq c 8233
                                || (nat_beq c 8239 || (nat_beq c 8287 || nat_beq c 12288)))))))))

abbrev pub is_blank : String → Bool
is_blank String.[] = true
is_blank (String.◌∷◌ c s) = is_space (code c) && is_blank s

strip_left : String → String
strip_left String.[] = String.[]
strip_left (String.◌∷◌ c s) = if is_space (code c) then strip_left s else String.◌∷◌ c s

strip_right : String → String
strip_right String.[] = String.[]
strip_right (String.◌∷◌ c s) =
    if is_blank (String.◌∷◌ c s) then String.[] else String.◌∷◌ c (strip_right s)

-- `str.strip()`
unfoldable pub strip : String → String
unfolding strip_left strip_right
strip s = strip_right (strip_left s)

-- `TwoGateWorkflow.assign_mentor`
unfoldable pub assign_mentor :
    WorkflowRecord → String → ActorRole → Result WorkflowError WorkflowRecord
assign_mentor r mentor_ref role =
    if not (has_role role (project_owner ∷ administrator ∷ []))
    then err may_not_assign_mentor
    else if not (same_status r.status registration_approved || same_status r.status in_progress)
    then err assignment_too_early
    else if is_blank mentor_ref
    then err empty_mentor_ref
    else ok (record r { mentor_ref = some mentor_ref })

-- `approval_transition_errors` over a table; the message names the trigger.
pub data TableError : Type 0 where
  not_administrator_only : Trigger → TableError
  no_notification : Trigger → TableError

-- `rule.target in human_only_targets`
abbrev pub is_human_only : ProjectStatus → Bool
is_human_only registration_approved = true
is_human_only registration_rejected = true
is_human_only completion_accepted = true
is_human_only completion_not_accepted = true
is_human_only _ = false

-- `rule.roles == frozenset({ActorRole.ADMINISTRATOR})`, as sets
abbrev pub administrator_only : List ActorRole → Bool
administrator_only roles = has_role administrator roles && all (λ r. nat_beq (role_rank r) 4) roles

role_errors : (Trigger → TransitionRule) → List (String × Trigger) → List TableError
role_errors table [] = []
role_errors table ((name, t) ∷ rest) =
    let others = role_errors table rest in
    if is_human_only (table t).target && not (administrator_only (table t).roles)
    then not_administrator_only t ∷ others
    else others

notice_errors : (Trigger → TransitionRule) → List Trigger → List TableError
notice_errors table [] = []
notice_errors table (t ∷ rest) =
    let others = notice_errors table rest in
    if is_none (table t).notification_event then no_notification t ∷ others else others

unfoldable pub approval_transition_errors : (Trigger → TransitionRule) → List TableError
unfolding role_errors notice_errors
approval_transition_errors table =
    role_errors table trigger_names
    ++ notice_errors table (publish_registration_draft ∷ publish_completion_draft ∷ [])
