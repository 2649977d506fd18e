-- ===== src/Education/Integrity/Results.antt =====
-- The entries of a milestone's results by requirement
-- (`validate_progress_integrity`, src/axcalib/schemas/education.py).
use axcalib.Prelude.{
  String, ◌≡◌, refl, true, false, ◌||◌, List, [], ◌∷◌, arith, eq_iff, ◌==◌, string_eq,
}
use axcalib.Education.Schema.{unique_texts, text_in}
use axcalib.Education.Enrollment.{RequirementResult, result_ids}
use axcalib.Education.Progress.{put_result, sorted_results, insert_result}

text_in-insert_result :
    (k : String) (r : RequirementResult) (rs : List RequirementResult)
    → text_in k (result_ids (insert_result r rs))
      ≡ (r.requirement_id == k || text_in k (result_ids rs))
unfolding insert_result
text_in-insert_result k r [] = refl
text_in-insert_result k r (x ∷ rs) = ground (arith, text_in-insert_result k r rs)

unique-insert_result :
    (r : RequirementResult) (rs : List RequirementResult)
    → text_in r.requirement_id (result_ids rs) ≡ false
    → unique_texts (result_ids rs) ≡ true
    → unique_texts (result_ids (insert_result r rs)) ≡ true
unfolding insert_result
unique-insert_result r [] f u = refl
unique-insert_result r (x ∷ rs) f u = ground (
  arith,
  eq_iff r.requirement_id x.requirement_id,
  eq_iff x.requirement_id r.requirement_id,
  text_in-insert_result x.requirement_id r rs,
  unique-insert_result r rs,
)

pub text_in-sorted_results :
    (k : String) (rs : List RequirementResult)
    → text_in k (result_ids (sorted_results rs)) ≡ text_in k (result_ids rs)
unfolding sorted_results
text_in-sorted_results k [] = refl
text_in-sorted_results k (r ∷ rs) =
    ground (arith, text_in-insert_result k r (sorted_results rs), text_in-sorted_results k rs)

pub unique-sorted_results :
    (rs : List RequirementResult)
    → unique_texts (result_ids rs) ≡ true
    → unique_texts (result_ids (sorted_results rs)) ≡ true
unfolding sorted_results
unique-sorted_results [] u = refl
unique-sorted_results (r ∷ rs) u = ground (
  arith,
  unique-insert_result r (sorted_results rs),
  text_in-sorted_results r.requirement_id rs,
  unique-sorted_results rs,
)

text_in-put_result :
    (k : String) (r : RequirementResult) (rs : List RequirementResult)
    → text_in k (result_ids (put_result r rs))
      ≡ (r.requirement_id == k || text_in k (result_ids rs))
unfolding put_result
text_in-put_result k r [] = refl
text_in-put_result k r (x ∷ rs) =
    ground (arith, eq_iff x.requirement_id r.requirement_id, text_in-put_result k r rs)

pub unique-put_result :
    (r : RequirementResult) (rs : List RequirementResult)
    → unique_texts (result_ids rs) ≡ true
    → unique_texts (result_ids (put_result r rs)) ≡ true
unfolding put_result
unique-put_result r [] u = refl
unique-put_result r (x ∷ rs) u = ground (
  arith,
  eq_iff x.requirement_id r.requirement_id,
  eq_iff r.requirement_id x.requirement_id,
  text_in-put_result x.requirement_id r rs,
  unique-put_result r rs,
)
