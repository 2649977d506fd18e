-- ===== src/Education/Service/Commits/Permission.antt =====
-- What a call of the service asked of the enrollment and of its caller before it was accepted
-- (`EducationProgramService`, src/axcalib/programs/service.py).
use axcalib.Prelude.{
  ℕ, ◌≤◌, String, ◌≡◌, refl, ap, ◌∙◌, leb, ◌⊎◌, inl, inr, true, ◌||◌, Option, some, none, arith,
  ◌==◌, eq_iff, string_eq,
}
use axcalib.Exec.{Result, ok}
use axcalib.Education.Refusal.{
  Refusal, bind-ok, require-ok, wrong_role, score_range, stale_revision, not_active, not_waiting,
  program_changed, ◌>>=◌, ◌>>◌,
}
use axcalib.Education.Schema.{
  Requirement, Condition, manual_confirmation, score_at_least, project_status, ReviewRole,
  role_name, instructor, mentor, administrator, MilestoneSpec, EducationProgram,
}
use axcalib.Education.Program.{milestones}
use axcalib.Education.Enrollment.{
  EnrollmentStatus, active, completion_hitl_pending, returned_for_revision, EducationEnrollment,
  RequirementResult,
}
use axcalib.Education.Actions.{
  start, decide, manual_result, score_result, milestone_of, requirement_of, expected_ok,
  may_progress, is_pending, require_revision, require_active, manual_role, score_rule,
}
use axcalib.Education.History.{Step, saved}
use axcalib.Education.Service.{
  ProjectView, Call, start_milestone, record_manual_confirmation, record_score, link_project,
  sync_project_milestone, decide_program_completion, context_of, apply,
}
use axcalib.Education.Service.Commits.{apply-Step}

-- The caller's expected revision, if it gave one, is the enrollment's.
abbrev pub IsCurrent : EducationEnrollment → Option ℕ → Type 0
IsCurrent e expected = (n : ℕ) → expected ≡ some n → e.revision ≡ n

abbrev CanProgress : EducationEnrollment → Type 0
CanProgress e = (e.status ≡ active) ⊎ (e.status ≡ returned_for_revision)

-- The role that a requirement's contract names for its reviewer.
abbrev reviewer : Condition → Option ReviewRole
reviewer (manual_confirmation role) = some role
reviewer (score_at_least passing role) = some role
reviewer (project_status status) = none

-- The program's milestone has this requirement, and the role is its reviewer's or an
-- administrator's.
abbrev MayReview : EducationProgram → String → String → ReviewRole → Type 0
MayReview program milestone_id requirement_id role =
    (m : MilestoneSpec) × (q : Requirement) × (milestone_of milestone_id (milestones program)
      ≡ ok m)
    × (requirement_of requirement_id m.requirements ≡ ok q)
    × ((reviewer q.condition ≡ some role) ⊎ (role ≡ administrator))

-- What each call asks: a status of the enrollment; but for a start and a decision, that the program
-- is the one enrolled in, by its digest; and of who records a result, the role.
abbrev pub IsPermitted : EducationProgram → String → ℕ → Call → EducationEnrollment → Type 0
IsPermitted program sha256 full (start_milestone milestone_id) e = CanProgress e
IsPermitted program sha256 full
      (record_manual_confirmation milestone_id requirement_id actor_id role ref) e =
    CanProgress e × (sha256 ≡ e.program.sha256) × MayReview program milestone_id requirement_id role
IsPermitted program sha256 full (record_score milestone_id requirement_id score actor_id role ref)
      e =
    CanProgress e
    × (sha256 ≡ e.program.sha256)
    × MayReview program milestone_id requirement_id role
    × (score ≤ full)
IsPermitted program sha256 full (link_project milestone_id project_id organization_id) e =
    CanProgress e × (sha256 ≡ e.program.sha256)
IsPermitted program sha256 full (sync_project_milestone milestone_id organization_id) e =
    CanProgress e × (sha256 ≡ e.program.sha256)
IsPermitted program sha256 full (decide_program_completion q reopened) e =
    e.status ≡ completion_hitl_pending

expected_ok-IsCurrent :
    (e : EducationEnrollment) (expected : Option ℕ)
    → expected_ok expected e.revision ≡ true
    → IsCurrent e expected
expected_ok-IsCurrent e none h n k = absurd (cc k)
expected_ok-IsCurrent e (some m) h n k = ground arith

may_progress-CanProgress : (e : EducationEnrollment) → may_progress e.status ≡ true → CanProgress e
may_progress-CanProgress e h = of e.status h
  where
    of : (s : EnrollmentStatus) → may_progress s ≡ true → (s ≡ active) ⊎ (s ≡ returned_for_revision)
    of active h = inl refl
    of returned_for_revision h = inr refl
    of _ h = absurd (cc h)

is_pending-status : (s : EnrollmentStatus) → is_pending s ≡ true → s ≡ completion_hitl_pending
is_pending-status completion_hitl_pending h = refl
is_pending-status _ h = absurd (cc h)

role-cases :
    (needed role : ReviewRole)
    → (role_name role == role_name needed || role_name role == "administrator") ≡ true
    → (needed ≡ role) ⊎ (role ≡ administrator)
role-cases needed administrator h = inr refl
role-cases instructor instructor h = inl refl
role-cases mentor mentor h = inl refl
role-cases _ _ h = absurd (cc h)

-- The checks that all calls but a start and a decision begin with.
checked-parts :
    (program : EducationProgram) (sha256 : String) (e : EducationEnrollment) (milestone_id : String)
    (expected : Option ℕ) (k : MilestoneSpec → Result Refusal EducationEnrollment)
    (c : EducationEnrollment)
    → (context_of program sha256 e milestone_id
        >>= (λ m. require_revision e expected >> (require_active e >> k m)))
      ≡ ok c
    → IsCurrent e expected
      × CanProgress e
      × (sha256 ≡ e.program.sha256)
      × ((m : MilestoneSpec) × (milestone_of milestone_id (milestones program) ≡ ok m)
          × (k m ≡ ok c))
checked-parts program sha256 e milestone_id expected k c h =
    let (m, f, rest) = bind-ok (context_of program sha256 e milestone_id) _ c h in
    let (same, found) =
      require-ok (sha256 == e.program.sha256) program_changed
        (milestone_of milestone_id (milestones program)) m f in
    let (current, rest) = require-ok (expected_ok expected e.revision) stale_revision _ c rest in
    let (open_, rest) = require-ok (may_progress e.status) not_active _ c rest in
    (
      expected_ok-IsCurrent e expected current,
      may_progress-CanProgress e open_,
      (eq_iff sha256 e.program.sha256).0 same,
      (m, found, rest),
    )

manual_role-reviewer :
    (x : Condition) (role : ReviewRole) → manual_role x ≡ ok role → reviewer x ≡ some role
manual_role-reviewer (manual_confirmation r) role h = ap some (cc h)
manual_role-reviewer (score_at_least n r) role h = absurd (cc h)
manual_role-reviewer (project_status s) role h = absurd (cc h)

score_rule-reviewer :
    (x : Condition) (rule : ℕ × ReviewRole) → score_rule x ≡ ok rule → reviewer x ≡ some rule.1
score_rule-reviewer (score_at_least n r) rule h = ground (arith, h)
score_rule-reviewer (manual_confirmation r) rule h = absurd (cc h)
score_rule-reviewer (project_status s) rule h = absurd (cc h)

reviewed :
    (x : Condition) (needed role : ReviewRole)
    → reviewer x ≡ some needed
    → (role_name role == role_name needed || role_name role == "administrator") ≡ true
    → (reviewer x ≡ some role) ⊎ (role ≡ administrator)
reviewed x needed role found h = elim (role-cases needed role h) [
  | inl e ↦ inl (found ∙ ap some e)
  | inr e ↦ inr e
]

manual_result-role :
    (now : ℕ) (m : MilestoneSpec) (requirement_id actor_id : String) (role : ReviewRole)
    (ref : String) (r : RequirementResult)
    → manual_result now m requirement_id actor_id role ref ≡ ok r
    → (q : Requirement) × (requirement_of requirement_id m.requirements ≡ ok q)
      × ((reviewer q.condition ≡ some role) ⊎ (role ≡ administrator))
unfolding manual_result
manual_result-role now m requirement_id actor_id role ref r h =
    let (q, found, rest) = bind-ok (requirement_of requirement_id m.requirements) _ r h in
    let (needed, kind, rest) = bind-ok (manual_role q.condition) _ r rest in
    let (allowed, _) = require-ok _ wrong_role _ r rest in
    (
      q,
      found,
      reviewed q.condition needed role (manual_role-reviewer q.condition needed kind) allowed,
    )

score_result-role :
    (full now : ℕ) (m : MilestoneSpec) (requirement_id : String) (score : ℕ) (actor_id : String)
    (role : ReviewRole) (ref : String) (r : RequirementResult)
    → score_result full now m requirement_id score actor_id role ref ≡ ok r
    → (q : Requirement) × (requirement_of requirement_id m.requirements ≡ ok q)
      × ((reviewer q.condition ≡ some role) ⊎ (role ≡ administrator))
      × (score ≤ full)
unfolding score_result
score_result-role full now m requirement_id score actor_id role ref r h =
    let (q, found, rest) = bind-ok (requirement_of requirement_id m.requirements) _ r h in
    let (rule, kind, rest) = bind-ok (score_rule q.condition) _ r rest in
    let (allowed, rest) = require-ok _ wrong_role _ r rest in
    let (within, _) = require-ok (leb score full) score_range _ r rest in
    (
      q,
      found,
      reviewed q.condition rule.1 role (score_rule-reviewer q.condition rule kind) allowed,
      ground arith,
    )

module _ (program : EducationProgram) (sha256 : String)
    (dossiers : String → Result Refusal ProjectView) (full now : ℕ) (event_id : String) where
  permitted :
      (call : Call) (e c : EducationEnrollment) (expected : Option ℕ)
      → apply program sha256 dossiers full now event_id call e expected ≡ ok c
      → IsCurrent e expected × IsPermitted program sha256 full call e
  unfolding apply start decide
  permitted (start_milestone milestone_id) e c expected h =
      let (current, rest) = require-ok (expected_ok expected e.revision) stale_revision _ c h in
      let (open_, _) = require-ok (may_progress e.status) not_active _ c rest in
      (expected_ok-IsCurrent e expected current, may_progress-CanProgress e open_)
  permitted (record_manual_confirmation milestone_id requirement_id actor_id role ref) e c expected
        h =
      let (current, open_, same, (m, found, rest)) =
        checked-parts program sha256 e milestone_id expected _ c h in
      let (r, given, _) = bind-ok (manual_result now m requirement_id actor_id role ref) _ c rest in
      let (q, there, may) = manual_result-role now m requirement_id actor_id role ref r given in
      (current, (open_, same, (m, q, found, there, may)))
  permitted (record_score milestone_id requirement_id score actor_id role ref) e c expected h =
      let (current, open_, same, (m, found, rest)) =
        checked-parts program sha256 e milestone_id expected _ c h in
      let (r, given, _) =
        bind-ok (score_result full now m requirement_id score actor_id role ref) _ c rest in
      let (q, there, may, within) =
        score_result-role full now m requirement_id score actor_id role ref r given in
      (current, (open_, same, (m, q, found, there, may), within))
  permitted (link_project milestone_id project_id organization_id) e c expected h =
      let (current, open_, same, _) = checked-parts program sha256 e milestone_id expected _ c h in
      (current, (open_, same))
  permitted (sync_project_milestone milestone_id organization_id) e c expected h =
      let (current, open_, same, _) = checked-parts program sha256 e milestone_id expected _ c h in
      (current, (open_, same))
  permitted (decide_program_completion q reopened) e c expected h =
      let (current, rest) = require-ok (expected_ok expected e.revision) stale_revision _ c h in
      let (waits, _) = require-ok (is_pending e.status) not_waiting _ c rest in
      (expected_ok-IsCurrent e expected current, is_pending-status e.status waits)

  -- Whenever a call of the service returns a candidate, saving it is one step of the history,
  -- and the call was permitted: the revision is the expected one, the enrollment is active or
  -- returned for revision (pending, for a decision), the program has the digest that the
  -- enrollment names (but for a start and a decision), a result is recorded under the role
  -- that the requirement names or as an administrator, and a score is at most that of 100
  -- points.
  pub apply-IsPermitted :
      (call : Call) (t : ℕ) (e c : EducationEnrollment) (expected : Option ℕ)
      → apply program sha256 dossiers full now event_id call e expected ≡ ok c
      → Step program e (saved t c) × IsCurrent e expected × IsPermitted program sha256 full call e
  apply-IsPermitted call t e c expected h =
      let (current, may) = permitted call e c expected h in
      (apply-Step program sha256 dossiers full now event_id call t e c expected h, current, may)
