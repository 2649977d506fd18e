-- ===== src/Education/Recording.antt =====
-- What recording a requirement's result makes of its milestone (`_record_requirement` and
-- `_evaluate_milestone`, src/axcalib/programs/service.py).
use axcalib.Prelude.{
  ℕ, String, ◌≡◌, refl, ap, ◌∙◌, true, false, some, List, [], ◌∷◌, arith, eq_iff, eq_refl, ◌==◌,
  string_eq, if◌then◌else◌, inl, inr, Option-cases,
}
use axcalib.Exec.{ok, Result-cases}
use axcalib.Education.Schema.{MilestoneSpec, EducationProgram, unique_texts, text_in}
use axcalib.Education.Program.{Placed, milestones}
use axcalib.Education.Enrollment.{
  RequirementResult, MilestoneProgress, is_completed, is_locked, progress_ok, EducationEnrollment,
  result_ids, enrollment_ok,
}
use axcalib.Education.Progress.{
  result_of, put_result, insert_result, sorted_results, evaluate_milestone, rule_met,
  replace_progress, unlock_items, unlock_item, unlock_dependents, completed_ids,
}
use axcalib.Education.Actions.{record_requirement, recorded, progress_of}
use axcalib.Education.Integrity.{progress_of-ok}
use axcalib.Education.Integrity.Activation.{valid-items}
use axcalib.Education.Integrity.Unlocking.{cons-cases}
use axcalib.Education.Integrity.Results.{unique-put_result, text_in-sorted_results}

result_of-put_result :
    (k : String) (r : RequirementResult) (rs : List RequirementResult)
    → result_of k (put_result r rs) ≡ (if r.requirement_id == k then some r else result_of k rs)
unfolding put_result
result_of-put_result k r [] = refl
result_of-put_result k r (x ∷ rs) = ground (
  arith,
  eq_iff x.requirement_id r.requirement_id,
  eq_iff x.requirement_id k,
  eq_iff r.requirement_id k,
  result_of-put_result k r rs,
)

result_of-insert_result :
    (k : String) (r : RequirementResult) (rs : List RequirementResult)
    → text_in r.requirement_id (result_ids rs) ≡ false
    → result_of k (insert_result r rs) ≡ (if r.requirement_id == k then some r else result_of k rs)
unfolding insert_result
result_of-insert_result k r [] f = refl
result_of-insert_result k r (x ∷ rs) f = ground (
  arith,
  eq_iff x.requirement_id r.requirement_id,
  eq_iff x.requirement_id k,
  eq_iff r.requirement_id k,
  result_of-insert_result k r rs,
)

result_of-sorted_results :
    (k : String) (rs : List RequirementResult)
    → unique_texts (result_ids rs) ≡ true
    → result_of k (sorted_results rs) ≡ result_of k rs
unfolding sorted_results
result_of-sorted_results k [] u = refl
result_of-sorted_results k (r ∷ rs) u = ground (
  arith,
  result_of-insert_result k r (sorted_results rs),
  text_in-sorted_results r.requirement_id rs,
  result_of-sorted_results k rs,
)

progress_of-id :
    (id : String) (ps : List MilestoneProgress) (p : MilestoneProgress)
    → progress_of id ps ≡ ok p
    → p.milestone_id ≡ id
unfolding progress_of
progress_of-id id [] p h = absurd (cc h)
progress_of-id id (x ∷ ps) p h = ground (arith, eq_iff x.milestone_id id, progress_of-id id ps p)

progress_of-replace :
    (id : String) (ps : List MilestoneProgress) (p u : MilestoneProgress)
    → u.milestone_id ≡ id
    → progress_of id ps ≡ ok p
    → progress_of id (replace_progress ps u) ≡ ok u
unfolding progress_of replace_progress
progress_of-replace id [] p u e h = absurd (cc h)
progress_of-replace id (x ∷ ps) p u e h =
    ground (arith, e, eq_refl id, eq_iff x.milestone_id id, progress_of-replace id ps p u e)

item-id :
    (done : List String) (specs : List Placed) (p q : MilestoneProgress)
    → unlock_item done specs p ≡ some q
    → (q.milestone_id ≡ p.milestone_id) × (is_locked p.status ≡ false → q ≡ p)
item-id done specs p q h = ground arith

progress_of-unlock_items :
    (id : String) (done : List String) (specs : List Placed) (ps qs : List MilestoneProgress)
    (u : MilestoneProgress)
    → unlock_items done specs ps ≡ some qs
    → progress_of id ps ≡ ok u
    → is_locked u.status ≡ false
    → progress_of id qs ≡ ok u
unfolding progress_of
progress_of-unlock_items id done specs [] qs u h g l = absurd (cc g)
progress_of-unlock_items id done specs (p ∷ ps) qs u h g l =
    let (q, rest, e, f, s) = cons-cases done specs p ps qs h in
    let (same, kept) = item-id done specs p q e in
    rw s (ground (arith, same, kept, progress_of-unlock_items id done specs ps rest u f))

recorded-id :
    (now : ℕ) (r : RequirementResult) (p : MilestoneProgress) (m : MilestoneSpec)
    → (recorded now r p m).milestone_id ≡ p.milestone_id
unfolding recorded evaluate_milestone
recorded-id now r p m = ground arith

recorded-status :
    (now : ℕ) (r : RequirementResult) (p : MilestoneProgress) (m : MilestoneSpec)
    → (is_locked (recorded now r p m).status ≡ false)
      × (is_completed (recorded now r p m).status
          ≡ rule_met m.completion_rule m.requirements (recorded now r p m).requirement_results)
unfolding recorded evaluate_milestone
recorded-status now r p m = ground arith

recorded-results :
    (now : ℕ) (r : RequirementResult) (p : MilestoneProgress) (m : MilestoneSpec)
    → (recorded now r p m).requirement_results ≡ sorted_results (put_result r p.requirement_results)
unfolding recorded evaluate_milestone
recorded-results now r p m = ground arith

progress_ok_unique :
    (p : MilestoneProgress)
    → progress_ok p ≡ true
    → unique_texts (result_ids p.requirement_results) ≡ true
unfolding progress_ok
progress_ok_unique p h = ground arith

-- What the results of a milestone are after one is recorded.
recorded-result_of :
    (now : ℕ) (r : RequirementResult) (p : MilestoneProgress) (m : MilestoneSpec)
    → unique_texts (result_ids p.requirement_results) ≡ true
    → (k : String)
    → result_of k (recorded now r p m).requirement_results
      ≡ (if r.requirement_id == k then some r else result_of k p.requirement_results)
recorded-result_of now r p m u k =
    ap (result_of k) (recorded-results now r p m)
    ∙ result_of-sorted_results k (put_result r p.requirement_results)
        (unique-put_result r p.requirement_results u)
    ∙ result_of-put_result k r p.requirement_results

-- When a result is recorded on an enrollment that passes `enrollment_ok`, the milestone has a
-- progress before and after it. Behind the call each requirement has the result that it had,
-- and the recorded one has the new result; the milestone is completed exactly when its
-- completion rule is met by these results.
pub record_requirement-records :
    (now : ℕ) (event_id : String) (e c : EducationEnrollment) (program : EducationProgram)
    (m : MilestoneSpec) (r : RequirementResult)
    → enrollment_ok e ≡ true
    → record_requirement now event_id e program m r ≡ ok c
    → (p : MilestoneProgress) × (q : MilestoneProgress) × (progress_of m.milestone_id e.milestones
        ≡ ok p)
      × (progress_of m.milestone_id c.milestones ≡ ok q)
      × ((k : String)
          → result_of k q.requirement_results
            ≡ (if r.requirement_id == k then some r else result_of k p.requirement_results))
      × (is_completed q.status ≡ rule_met m.completion_rule m.requirements q.requirement_results)
unfolding record_requirement unlock_dependents
record_requirement-records now event_id e c program m r v h =
    elim (Result-cases (progress_of m.milestone_id e.milestones)) [
      | inl (x, f) ↦ absurd (ground (arith, f))
      | inr (p, f) ↦
          let q : MilestoneProgress = recorded now r p m in
          let ps : List MilestoneProgress = replace_progress e.milestones q in
          elim (Option-cases (unlock_dependents ps program)) [
            | inl g ↦ absurd (ground (arith, f, g))
            | inr (qs, g) ↦
                let after : c.milestones ≡ qs = ground (arith, f, g) in
                let same : q.milestone_id ≡ m.milestone_id =
                  recorded-id now r p m ∙ progress_of-id m.milestone_id e.milestones p f in
                (
                  p,
                  q,
                  f,
                  rw after (
                      progress_of-unlock_items m.milestone_id (completed_ids ps)
                        (milestones program) ps qs q g
                        (progress_of-replace m.milestone_id e.milestones p q same f)
                        (recorded-status now r p m).0),
                  recorded-result_of now r p m (
                      progress_ok_unique p
                        (progress_of-ok m.milestone_id e.milestones p f (valid-items e v))),
                  (recorded-status now r p m).1,
                )
          ]
    ]
