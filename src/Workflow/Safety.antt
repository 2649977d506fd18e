-- ===== src/Workflow/Safety.antt =====
-- The static check of the transition table, and the failure of a gate whose notice is not sent.
use axcalib.Prelude.{
  ℕ, String, ◌≡◌, refl, All, true, false, Option, none, some, List, [], ◌∷◌, ◌++◌, arith, is_some,
  ◌↔◌, ◌⊎◌, inl, inr, not, ◌&&◌, all, nat_beq, Bool-cases,
}
use axcalib.Exec.{is_ok}
use axcalib.Workflow.{
  ActorRole, administrator, role_rank, has_role, ProjectStatus, registration_approved,
  registration_rejected, completion_accepted, completion_not_accepted, WorkflowRecord,
  TransitionRule, Trigger, GateEvent, Notifier, NotificationEvent, TableError, transitions,
  trigger_names, is_human_only, administrator_only, role_errors, approval_transition_errors,
  transition, apply_rule, notify, notice, registration_admin_approval_requested,
  completion_admin_approval_requested,
}
use axcalib.Workflow.{
  submit_registration, start_registration_evaluation, publish_registration_draft,
  approve_registration, reject_registration, start_execution, request_completion,
  request_completion_submission_approval, approve_completion_submission,
  start_completion_evaluation, publish_completion_draft, accept_completion, decline_completion,
}
use axcalib.Workflow.Graph.{trigger_name, find_trigger-name}

-- The statuses in which a human has decided a gate.
abbrev pub IsDecided : ProjectStatus → Type 0
IsDecided s =
    (s ≡ registration_approved)
    ⊎ (s ≡ registration_rejected)
    ⊎ (s ≡ completion_accepted)
    ⊎ (s ≡ completion_not_accepted)

-- Of all roles, the rule takes the administrator's and no other.
abbrev pub ForAdministrators : List ActorRole → Type 0
ForAdministrators roles = (role : ActorRole) → (has_role role roles ≡ true) ↔ (role ≡ administrator)

-- A rule that ends where a human has decided a gate is for administrators alone.
abbrev pub IsSafeRule : TransitionRule → Type 0
IsSafeRule r = IsDecided r.target → ForAdministrators r.roles

is_human_only-IsDecided : (s : ProjectStatus) → is_human_only s ≡ true → IsDecided s
is_human_only-IsDecided registration_approved h = inl refl
is_human_only-IsDecided registration_rejected h = inr (inl refl)
is_human_only-IsDecided completion_accepted h = inr (inr (inl refl))
is_human_only-IsDecided completion_not_accepted h = inr (inr (inr refl))
is_human_only-IsDecided _ h = absurd (cc h)

IsDecided-is_human_only : (s : ProjectStatus) → IsDecided s → is_human_only s ≡ true
IsDecided-is_human_only s (inl e) = rw e refl
IsDecided-is_human_only s (inr (inl e)) = rw e refl
IsDecided-is_human_only s (inr (inr (inl e))) = rw e refl
IsDecided-is_human_only s (inr (inr (inr e))) = rw e refl

is_administrator : (role : ActorRole) → nat_beq (role_rank role) 4 ≡ true → role ≡ administrator
is_administrator administrator h = refl
is_administrator _ h = absurd (cc h)

held_rank :
    (roles : List ActorRole) (role : ActorRole)
    → all (λ x. nat_beq (role_rank x) 4) roles ≡ true
    → has_role role roles ≡ true
    → nat_beq (role_rank role) 4 ≡ true
held_rank [] role a h = absurd (cc h)
held_rank (x ∷ roles) role a h = ground (arith, held_rank roles role)

administrator_only-ForAdministrators :
    (roles : List ActorRole) → administrator_only roles ≡ true → ForAdministrators roles
administrator_only-ForAdministrators roles h role = (
  (λ k. is_administrator role (held_rank roles role (ground arith) k)),
  (λ e. rw e (ground arith)),
)

all_administrators :
    (roles : List ActorRole)
    → ((role : ActorRole) → has_role role roles ≡ true → role ≡ administrator)
    → all (λ x. nat_beq (role_rank x) 4) roles ≡ true
all_administrators [] f = refl
all_administrators (x ∷ roles) f =
    let first : nat_beq (role_rank x) 4 ≡ true = rw (f x (ground arith)) refl in
    let rest = all_administrators roles (λ role h. f role (ground (arith, h))) in
    ground (arith, first, rest)

ForAdministrators-administrator_only :
    (roles : List ActorRole) → ForAdministrators roles → administrator_only roles ≡ true
ForAdministrators-administrator_only roles f =
    let given = (f administrator).1 refl in
    let others = all_administrators roles (λ role. (f role).0) in ground (arith, given, others)

-- What `approval_transition_errors` is there to ensure of a table.
pub record IsSafeTable (table : Trigger → TransitionRule) : Type 0 where
  pub rules : (t : Trigger) → IsSafeRule (table t)
  pub registration : is_some (table publish_registration_draft).notification_event ≡ true
  pub completion : is_some (table publish_completion_draft).notification_event ≡ true

module _ (table : Trigger → TransitionRule) where
  role_errors_sound :
      (l : List (String × Trigger)) → role_errors table l ≡ [] → All (λ p. IsSafeRule (table p.1)) l
  unfolding role_errors
  role_errors_sound [] h = tt
  role_errors_sound ((name, t) ∷ rest) h = (
    (λ d.
        administrator_only-ForAdministrators (table t).roles
          (let human = IsDecided-is_human_only (table t).target d in ground (arith, human))),
    role_errors_sound rest (ground arith),
  )

  checked_rule :
      (t : Trigger)
      → IsSafeRule (table t)
      → (is_human_only (table t).target && not (administrator_only (table t).roles)) ≡ false
  checked_rule t safe = elim (Bool-cases (is_human_only (table t).target)) [
    | inl e ↦
        let only =
          ForAdministrators-administrator_only (table t).roles
            (safe (is_human_only-IsDecided (table t).target e)) in
        ground (arith, e, only)
    | inr e ↦ ground (arith, e)
  ]

  role_errors_complete :
      (l : List (String × Trigger))
      → ((t : Trigger) → IsSafeRule (table t))
      → role_errors table l ≡ []
  unfolding role_errors
  role_errors_complete [] h = refl
  role_errors_complete ((name, t) ∷ rest) h =
      rw (checked_rule t (h t)) (role_errors_complete rest h)

  pick : (P : Trigger → Type 0) (t : Trigger) → All (λ p. P p.1) trigger_names → P t
  pick P submit_registration a = a.0
  pick P start_registration_evaluation a = a.1.0
  pick P publish_registration_draft a = a.1.1.0
  pick P approve_registration a = a.1.1.1.0
  pick P reject_registration a = a.1.1.1.1.0
  pick P start_execution a = a.1.1.1.1.1.0
  pick P request_completion a = a.1.1.1.1.1.1.0
  pick P request_completion_submission_approval a = a.1.1.1.1.1.1.1.0
  pick P approve_completion_submission a = a.1.1.1.1.1.1.1.1.0
  pick P start_completion_evaluation a = a.1.1.1.1.1.1.1.1.1.0
  pick P publish_completion_draft a = a.1.1.1.1.1.1.1.1.1.1.0
  pick P accept_completion a = a.1.1.1.1.1.1.1.1.1.1.1.0
  pick P decline_completion a = a.1.1.1.1.1.1.1.1.1.1.1.1.0

  append-nil_left : (xs ys : List TableError) → xs ++ ys ≡ [] → (xs ≡ []) × (ys ≡ [])
  append-nil_left [] ys h = (refl, h)
  append-nil_left (x ∷ xs) ys h = absurd (cc h)

  -- The check of a table finds nothing exactly if every rule that ends where a human has
  -- decided a gate takes the administrator's role and no other, and both publications require
  -- a notification.
  pub approval_transition_errors_iff : (approval_transition_errors table ≡ []) ↔ IsSafeTable table
  unfolding approval_transition_errors
  approval_transition_errors_iff = (
    (λ h.
        let (roles, notices) = append-nil_left (role_errors table trigger_names) _ h in
        record {
          rules = λ t. pick (λ u. IsSafeRule (table u)) t (role_errors_sound trigger_names roles);
          registration = ground arith;
          completion = ground arith;
        }),
    (λ safe. ground (arith, role_errors_complete trigger_names safe.rules)),
  )

-- The table of the source passes the check.
pub transitions-safe : approval_transition_errors transitions ≡ []
unfolding approval_transition_errors transitions
transitions-safe = refl

-- There is no notifier, or its every `send` raises.
abbrev pub IsSilent : {N : Type 0} → Option (Notifier N) → N → Type 0
IsSilent none n = Unit
IsSilent (some send) n = (event : NotificationEvent) → is_ok (send event n).0 ≡ false

module _ {N : Type 0} (notifier : Option (Notifier N)) (n : N) (silent : IsSilent notifier n)
    (r : WorkflowRecord) (revision : Option ℕ) (report : Option String) where
  notify_fails :
      (o : Option (Notifier N)) (g : GateEvent)
      → IsSilent o n
      → is_ok (notify o (some g) r revision report n).0 ≡ false
  unfolding notify
  notify_fails none g s = refl
  notify_fails (some send) g s = s (notice g r revision report)

  -- Where there is no notifier or its every `send` raises, no transition that requires a
  -- notice succeeds.
  pub publication_fails_closed :
      (t : Trigger) (role : ActorRole)
      → is_some (transitions t).notification_event ≡ true
      → is_ok (transition notifier r (trigger_name t) role revision report n).0 ≡ false
  unfolding transition apply_rule
  publication_fails_closed t role h = rw (find_trigger-name t) (gate t h)
    where
      gate :
          (t : Trigger)
          → is_some (transitions t).notification_event ≡ true
          → is_ok (apply_rule notifier r t role revision report n).0 ≡ false
      gate t h = ground (
        arith,
        notify_fails notifier registration_admin_approval_requested silent,
        notify_fails notifier completion_admin_approval_requested silent,
      )
