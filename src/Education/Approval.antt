-- ===== src/Education/Approval.antt =====
-- When an enrollment counts as certified: its last decision and its required milestones
-- (src/axcalib/programs/service.py and src/axcalib/schemas/education.py).
use axcalib.Prelude.{
  String, ◌≡◌, refl, true, not, ◌&&◌, ◌||◌, ◌==◌, string_eq, eq_iff, All, some, List, [], ◌∷◌, any,
  all, arith,
}
use axcalib.Education.Schema.{EducationProgram, text_in}
use axcalib.Education.Program.{Placed, milestones}
use axcalib.Education.Enrollment.{
  MilestoneProgress, is_completed, CompletionDecision, EducationEnrollment, latest_command,
  is_approved, DecisionCommand, approve, return_for_revision, latest_decision, last_decision,
  last_command, text_within, decision_ok,
}
use axcalib.Education.Progress.{is_ready, completed_ids}

-- Some item has this ID and is completed.
abbrev pub HasCompleted : String → List MilestoneProgress → Type 0
HasCompleted id ps =
    any (λ (p : MilestoneProgress). p.milestone_id == id && is_completed p.status) ps ≡ true

-- Every milestone of the program that is marked as required has an item that is completed.
abbrev pub RequiredCompleted : EducationProgram → List MilestoneProgress → Type 0
RequiredCompleted program ps =
    All
      (λ (q : Placed).
        q.milestone.required_for_program_completion ≡ true
        → HasCompleted q.milestone.milestone_id ps)
      (milestones program)

-- The last decision approves, stands under the role of an administrator, and gives a reason.
abbrev pub IsCertified : EducationEnrollment → Type 0
IsCertified e =
    (d : CompletionDecision) × (latest_decision e.completion_decisions ≡ some d)
    × (d.command ≡ approve)
    × (d.actor_role ≡ "administrator")
    × (text_within 4000 d.rationale ≡ true)

text_in-HasCompleted :
    (id : String) (ps : List MilestoneProgress)
    → text_in id (completed_ids ps) ≡ true
    → HasCompleted id ps
text_in-HasCompleted id [] h = absurd (cc h)
text_in-HasCompleted id (p ∷ ps) h = ground (arith, text_in-HasCompleted id ps)

pub is_ready-RequiredCompleted :
    (program : EducationProgram) (ps : List MilestoneProgress)
    → is_ready program ps ≡ true
    → RequiredCompleted program ps
unfolding is_ready
is_ready-RequiredCompleted program ps h = each (milestones program) h
  where
    each :
        (qs : List Placed)
        → all
            (λ (q : Placed).
              not q.milestone.required_for_program_completion
              || text_in q.milestone.milestone_id (completed_ids ps))
            qs
          ≡ true
        → All
            (λ (q : Placed).
              q.milestone.required_for_program_completion ≡ true
              → HasCompleted q.milestone.milestone_id ps)
            qs
    each [] a = tt
    each (q ∷ qs) a = (
      (λ r. text_in-HasCompleted q.milestone.milestone_id ps (ground (arith, a, r))),
      each qs (ground (arith, a)),
    )

last_decision-approved :
    (x : CompletionDecision) (ds : List CompletionDecision)
    → all decision_ok (x ∷ ds) ≡ true
    → is_approved (some (last_command x ds)) ≡ true
    → (decision_ok (last_decision x ds) ≡ true) × ((last_decision x ds).command ≡ approve)
last_decision-approved x [] a h = (ground arith, approved x.command h)
  where
    approved : (c : DecisionCommand) → is_approved (some c) ≡ true → c ≡ approve
    approved approve h = refl
    approved return_for_revision h = absurd (cc h)
last_decision-approved x (y ∷ ds) a h = last_decision-approved y ds (ground arith) h

decision-parts :
    (d : CompletionDecision)
    → decision_ok d ≡ true
    → (d.actor_role ≡ "administrator") × (text_within 4000 d.rationale ≡ true)
unfolding decision_ok
decision-parts d h = (ground (arith, eq_iff d.actor_role "administrator"), ground arith)

pub approved-IsCertified :
    (e : EducationEnrollment)
    → all decision_ok e.completion_decisions ≡ true
    → is_approved (latest_command e.completion_decisions) ≡ true
    → IsCertified e
approved-IsCertified e a h = found e.completion_decisions a h
  where
    found :
        (ds : List CompletionDecision)
        → all decision_ok ds ≡ true
        → is_approved (latest_command ds) ≡ true
        → (d : CompletionDecision) × (latest_decision ds ≡ some d)
          × (d.command ≡ approve)
          × (d.actor_role ≡ "administrator")
          × (text_within 4000 d.rationale ≡ true)
    found [] a h = absurd (cc h)
    found (x ∷ ds) a h =
        let (ok_, command) = last_decision-approved x ds a h in
        let (role, rationale) = decision-parts (last_decision x ds) ok_ in
        (last_decision x ds, refl, command, role, rationale)
