-- ===== src/Education/Progress.antt =====
-- How the results of a milestone's requirements change its status, and what is unlocked then
-- (`_evaluate_milestone`, `_unlock_dependents` and the update of the results in
-- src/axcalib/programs/service.py).
use axcalib.Prelude.{
  ℕ, ◌+◌, String, Bool, true, false, not, ◌||◌, Option, none, some, List, [], ◌∷◌, any, all, leb,
  text_leb, ◌==◌, string_eq, if◌then◌else◌,
}
use axcalib.Workflow.{
  registration_hitl_pending, completion_hitl_pending, registration_rejected,
  completion_not_accepted,
}
use axcalib.Education.Schema.{
  Requirement, CompletionRule, all_required, minimum_points, MilestoneSpec, EducationProgram,
  text_in,
}
use axcalib.Education.Program.{Placed, milestones}
use axcalib.Education.Enrollment.{
  Source, project_dossier, Observed, dossier_status, RequirementResult, MilestoneProgress,
  ProgressStatus, available, in_progress, waiting_review, needs_action, completed, is_completed,
  is_locked,
}

-- `results.get(requirement_id)`
abbrev pub result_of : String → List RequirementResult → Option RequirementResult
result_of id [] = none
result_of id (r ∷ rs) = if r.requirement_id == id then some r else result_of id rs

abbrev pub is_satisfied : Option RequirementResult → Bool
is_satisfied none = false
is_satisfied (some r) = r.satisfied

-- `existing[result.requirement_id] = result`
unfoldable pub put_result : RequirementResult → List RequirementResult → List RequirementResult
put_result r [] = r ∷ []
put_result r (x ∷ xs) = if x.requirement_id == r.requirement_id then r ∷ xs else x ∷ put_result r xs

unfoldable pub insert_result : RequirementResult → List RequirementResult → List RequirementResult
insert_result r [] = r ∷ []
insert_result r (x ∷ xs) =
    if text_leb r.requirement_id x.requirement_id then r ∷ x ∷ xs else x ∷ insert_result r xs

-- `tuple(existing[key] for key in sorted(existing))`; the keys of a valid progress are unique.
unfoldable pub sorted_results : List RequirementResult → List RequirementResult
unfolding insert_result
sorted_results [] = []
sorted_results (r ∷ rs) = insert_result r (sorted_results rs)

-- `sum(item.points_awarded for item in results.values() if item.satisfied)`
abbrev pub awarded : List RequirementResult → ℕ
awarded [] = 0
awarded (r ∷ rs) = if r.satisfied then r.points_awarded + awarded rs else awarded rs

abbrev pub rule_met : CompletionRule → List Requirement → List RequirementResult → Bool
rule_met all_required requirements rs =
    all (λ (q : Requirement). is_satisfied (result_of q.requirement_id rs)) requirements
rule_met (minimum_points n) requirements rs = leb n (awarded rs)

abbrev is_from_dossier : Source → Bool
is_from_dossier project_dossier = true
is_from_dossier _ = false

-- `next((item for item in results.values() if item.source == "project_dossier"), None)`
abbrev dossier_result : List RequirementResult → Option RequirementResult
dossier_result [] = none
dossier_result (r ∷ rs) = if is_from_dossier r.source then some r else dossier_result rs

abbrev observed_next : Observed → ProgressStatus
observed_next (dossier_status registration_hitl_pending) = waiting_review
observed_next (dossier_status completion_hitl_pending) = waiting_review
observed_next (dossier_status registration_rejected) = needs_action
observed_next (dossier_status completion_not_accepted) = needs_action
observed_next _ = in_progress

without_project : MilestoneProgress → MilestoneProgress
without_project p =
    if any (λ (r : RequirementResult). not r.satisfied) p.requirement_results
    then record p { status = needs_action }
    else p

unmet : Option RequirementResult → MilestoneProgress → MilestoneProgress
unmet none p = without_project p
unmet (some r) p =
    if not r.satisfied
    then record p { status = observed_next r.observed_value }
    else without_project p

-- `_evaluate_milestone` at the time `now`
unfoldable pub evaluate_milestone : ℕ → MilestoneProgress → MilestoneSpec → MilestoneProgress
unfolding without_project unmet
evaluate_milestone now p m =
    if rule_met m.completion_rule m.requirements p.requirement_results
    then record p { status = completed; completed_at = some now }
    else unmet (dossier_result p.requirement_results) p

-- `_replace_progress`
unfoldable pub replace_progress :
    List MilestoneProgress → MilestoneProgress → List MilestoneProgress
replace_progress [] updated = []
replace_progress (p ∷ ps) updated =
    (if p.milestone_id == updated.milestone_id then updated else p) ∷ replace_progress ps updated

-- The set of the completed milestones.
abbrev pub completed_ids : List MilestoneProgress → List String
completed_ids [] = []
completed_ids (p ∷ ps) =
    if is_completed p.status then p.milestone_id ∷ completed_ids ps else completed_ids ps

-- `specs[milestone_id]`; the IDs of a valid program are unique.
abbrev pub spec_of : String → List Placed → Option MilestoneSpec
spec_of id [] = none
spec_of id (q ∷ qs) = if q.milestone.milestone_id == id then some q.milestone else spec_of id qs

abbrev pub unlock_by : List String → MilestoneProgress → MilestoneSpec → MilestoneProgress
unlock_by done p m =
    if all (λ k. text_in k done) m.prerequisites then record p { status = available } else p

-- One item of `_unlock_dependents`; a missing specification is a `KeyError`.
abbrev pub unlock_item : List String → List Placed → MilestoneProgress → Option MilestoneProgress
unlock_item done specs p =
    if not (is_locked p.status)
    then some p
    else elim (spec_of p.milestone_id specs) [ none ↦ none | some m ↦ some (unlock_by done p m) ]

abbrev cons_item :
    Option MilestoneProgress → Option (List MilestoneProgress) → Option (List MilestoneProgress)
cons_item none rest = none
cons_item (some p) none = none
cons_item (some p) (some ps) = some (p ∷ ps)

unfoldable pub unlock_items :
    List String → List Placed → List MilestoneProgress → Option (List MilestoneProgress)
unlock_items done specs [] = some []
unlock_items done specs (p ∷ ps) = cons_item (unlock_item done specs p) (unlock_items done specs ps)

-- `_unlock_dependents`
unfoldable pub unlock_dependents :
    List MilestoneProgress → EducationProgram → Option (List MilestoneProgress)
unfolding unlock_items
unlock_dependents ps program = unlock_items (completed_ids ps) (milestones program) ps

-- The first test of `_request_program_completion_if_ready`.
unfoldable pub is_ready : EducationProgram → List MilestoneProgress → Bool
is_ready program ps =
    all
      (λ (q : Placed).
        not q.milestone.required_for_program_completion
        || text_in q.milestone.milestone_id (completed_ids ps))
      (milestones program)
