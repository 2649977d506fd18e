-- ===== src/Education/Integrity.antt =====
-- The validators of an enrollment's progress, which the source does not run on a changed copy
-- (`model_copy`, src/axcalib/programs/service.py): results, milestones and what is unlocked.
pub mod Results
pub mod Unlocking
pub mod Frontier
pub mod Open
pub mod Sound
pub mod Activation
pub mod Steps
use axcalib.Prelude.{
  ℕ, String, ◌≡◌, refl, ap, ◌∙◌, Bool, true, false, not, ◌&&◌, ◌||◌, Option, none, some, List, [],
  ◌∷◌, map, any, all, arith, eq_iff, ◌==◌, string_eq, is_some, is_none, if◌then◌else◌, Bool-cases,
  Option-cases, inl, inr,
}
use axcalib.Exec.{Result, ok, err}
use axcalib.Education.Refusal.{Refusal}
use axcalib.Education.Schema.{
  MilestoneSpec, EducationProgram, unique_texts, text_in, CompletionRule,
}
use axcalib.Education.Program.{Placed, milestones}
use axcalib.Education.Enrollment.{
  RequirementResult, MilestoneProgress, ProgressStatus, locked, available, in_progress,
  waiting_review, needs_action, completed, is_completed, is_locked, progress_ok, progress_ids,
  result_ids,
}
use axcalib.Education.Progress.{
  put_result, sorted_results, evaluate_milestone, replace_progress, completed_ids, unlock_items,
  unlock_item, unlock_by, unlock_dependents, rule_met, spec_of,
}
use axcalib.Education.Actions.{recorded, reopen, progress_of, may_record, may_start, may_bind}
use axcalib.Education.Integrity.Results.{unique-sorted_results, unique-put_result}

-- The updated item takes the place of the one with its ID.
pub progress_ids-replace :
    (ps : List MilestoneProgress) (u : MilestoneProgress)
    → progress_ids (replace_progress ps u) ≡ progress_ids ps
unfolding replace_progress
progress_ids-replace [] u = refl
progress_ids-replace (p ∷ ps) u =
    ground (arith, eq_iff p.milestone_id u.milestone_id, progress_ids-replace ps u)

pub progress_ok-replace :
    (ps : List MilestoneProgress) (u : MilestoneProgress)
    → progress_ok u ≡ true
    → all progress_ok ps ≡ true
    → all progress_ok (replace_progress ps u) ≡ true
unfolding replace_progress
progress_ok-replace [] u h a = refl
progress_ok-replace (p ∷ ps) u h a = ground (arith, progress_ok-replace ps u h)

pub progress_of-ok :
    (id : String) (ps : List MilestoneProgress) (p : MilestoneProgress)
    → progress_of id ps ≡ ok p
    → all progress_ok ps ≡ true
    → progress_ok p ≡ true
unfolding progress_of
progress_of-ok id [] p h a = absurd (cc h)
progress_of-ok id (x ∷ ps) p h a = ground (arith, progress_of-ok id ps p)

-- The item that was changed: its status is another, but neither is completed.
pub progress_ok-status :
    (p : MilestoneProgress) (status : ProgressStatus) (project : Option String) (started : Option ℕ)
    → progress_ok p ≡ true
    → is_completed p.status ≡ false
    → is_completed status ≡ false
    → progress_ok (record p { status = status; bound_project_id = project; started_at = started })
      ≡ true
unfolding progress_ok
progress_ok-status p status project started h a b = ground arith

evaluate_milestone-ok :
    (now : ℕ) (p : MilestoneProgress) (m : MilestoneSpec)
    → unique_texts (result_ids p.requirement_results) ≡ true
    → p.completed_at ≡ none
    → p.status ≡ in_progress
    → progress_ok (evaluate_milestone now p m) ≡ true
unfolding evaluate_milestone progress_ok
evaluate_milestone-ok now p m u c s = ground arith

may_record-open : (s : ProgressStatus) → may_record s ≡ true → is_completed s ≡ false
may_record-open s h = ground arith

pub progress_ok-recorded :
    (now : ℕ) (r : RequirementResult) (p : MilestoneProgress) (m : MilestoneSpec)
    → progress_ok p ≡ true
    → may_record p.status ≡ true
    → progress_ok (recorded now r p m) ≡ true
unfolding recorded progress_ok
progress_ok-recorded now r p m h s =
    evaluate_milestone-ok now _ m
      (unique-sorted_results _ (unique-put_result r p.requirement_results (ground arith)))
      (ground (arith, may_record-open p.status)) refl

pub progress_ok-reopen :
    (ids : List String) (ps : List MilestoneProgress)
    → all progress_ok ps ≡ true
    → all progress_ok (reopen ids ps) ≡ true
unfolding reopen progress_ok
progress_ok-reopen ids [] a = refl
progress_ok-reopen ids (p ∷ ps) a = ground (arith, progress_ok-reopen ids ps)

pub progress_ids-reopen :
    (ids : List String) (ps : List MilestoneProgress)
    → progress_ids (reopen ids ps) ≡ progress_ids ps
unfolding reopen
progress_ids-reopen ids [] = refl
progress_ids-reopen ids (p ∷ ps) = ground (arith, progress_ids-reopen ids ps)
