-- ===== src/Education/Examples.antt =====
-- A program of two milestones, and a learner's way through it.
use axcalib.Prelude.{
  ℕ, Bool, ◌&&◌, leb, fits, String, ◌≡◌, refl, true, false, ◌||◌, Option, none, some, [], ◌∷◌, any,
  length, if◌then◌else◌, ◌==◌, string_eq,
}
use axcalib.Exec.{Result, ok, err, is_ok}
use axcalib.Education.Refusal.{Refusal, no_dossier}
use axcalib.Education.Schema
use axcalib.Education.Schema.{
  Requirement, all_required, MilestoneSpec, ProgramLevel, EducationProgram, learning_activity,
  instructor, published,
}
use axcalib.Education.Program.{milestones, graph_ok, ids}
use axcalib.Education.Program.Prerequisites.{in_order, milestones-in_order}
use axcalib.Education.Enrollment
use axcalib.Education.Enrollment.{
  RequirementResult, MilestoneProgress, ProgramRef, EducationEnrollment, CompletionDecision,
  approve, enrollment_ok, progress_ok, progress_ids, latest_command, is_approved, is_completed,
}
use axcalib.Education.Progress.{
  is_ready, result_of, rule_met, unlock_dependents, replace_progress, evaluate_milestone,
  sorted_results, put_result,
}
use axcalib.Education.Actions.{
  DecisionRequest, milestone_of, manual_result, requirement_of, ReviewContext, start, bind_project,
  record_requirement, completion_request, decide, decided, progress_of, recorded,
}
use axcalib.Education.History.{
  enrolled, saved, Step, Reach, here, next, recorded_result, requested, decided_on,
}
use axcalib.Education.Integrity.Frontier.{is_open, all_completed}
use axcalib.Education.Approval.{IsCertified, RequiredCompleted}
use axcalib.Education.Certified.{reached-valid, completed-approved, reached-open, finished-refused}
use axcalib.Education.Service.{ProjectView, Call, record_manual_confirmation, apply}
use axcalib.Education.Service.Commits.Permission.{IsCurrent, IsPermitted, apply-IsPermitted}
use axcalib.Files.{Files, write}
use axcalib.Identifiers.{is_safe_name}
use axcalib.Education.Stores.{load, save, revision_conflict, content_ok}
use axcalib.Education.Stores.Laws.{save_once}
use axcalib.Education.Recording.{record_requirement-records}

abbrev quiz : Requirement
quiz = record {
  requirement_id = "quiz";
  title = "Quiz";
  points = 10;
  condition = Schema.manual_confirmation instructor;
}

abbrev basics : MilestoneSpec
basics = record {
  milestone_id = "basics";
  title = "Basics";
  sequence = 1;
  kind = learning_activity;
  prerequisites = [];
  pipeline_id = "p";
  pipeline_version = "1";
  requirements = quiz ∷ [];
  completion_rule = all_required;
  required_for_program_completion = true;
}

abbrev practice : MilestoneSpec
practice = record basics { milestone_id = "practice"; sequence = 2; prerequisites = "basics" ∷ [] }

abbrev program : EducationProgram
program = record {
  program_id = "ax";
  version = "1.0.0";
  title = "AX";
  status = published;
  owner_ref = "o";
  levels =
      record { level_id = "l"; title = "L"; sequence = 1; milestones = practice ∷ basics ∷ [] }
      ∷ [];
}

-- A digest of 64 hexadecimal digits.
abbrev sha : String
sha = "0123456789abcdef0123456789abcdef0123456789abcdef0123456789abcdef"

abbrev ref : ProgramRef
ref = record { program_id = "ax"; version = "1.0.0"; sha256 = sha }

abbrev passed : RequirementResult
passed = record {
  requirement_id = "quiz";
  satisfied = true;
  points_awarded = 10;
  source = Enrollment.manual_confirmation;
  actor_id = "t";
  actor_role = "instructor";
  evidence_ref = "x";
  observed_value = Enrollment.confirmed;
  recorded_at = 3;
}

abbrev approval : DecisionRequest
approval = record {
  command = approve;
  actor_id = "admin";
  rationale = "fine";
  authority_context = "local";
}

abbrev candidate : EducationEnrollment → Result Refusal EducationEnrollment → EducationEnrollment
candidate e (ok c) = c
candidate e (err x) = e

abbrev asked : EducationEnrollment → Option EducationEnrollment → EducationEnrollment
asked e none = e
asked e (some c) = c

abbrev fresh : EducationEnrollment
fresh = enrolled 1 program ref "e" "learner" "evt-0"

abbrev after_basics : EducationEnrollment
after_basics = saved 3 (candidate fresh (record_requirement 3 "evt-1" fresh program basics passed))

abbrev after_practice : EducationEnrollment
after_practice =
    saved 4
      (candidate after_basics (record_requirement 4 "evt-2" after_basics program practice passed))

abbrev waiting : EducationEnrollment
waiting = saved 5 (asked after_practice (completion_request "evt-3" program after_practice))

abbrev certified : EducationEnrollment
certified = saved 6 (candidate waiting (decide "evt-4" waiting (some 4) approval []))

certified-Reach : Reach program fresh certified
unfolding enrolled milestones record_requirement completion_request decide decided is_ready
    progress_of unlock_dependents replace_progress recorded evaluate_milestone sorted_results
    put_result fits
certified-Reach =
    next
      (next
        (next (next here (recorded_result 3 3 "evt-1" basics passed fresh _ refl refl))
          (recorded_result 4 4 "evt-2" practice passed after_basics _ refl refl))
        (requested 5 "evt-3" after_practice _ refl refl))
      (decided_on 6 "evt-4" (some 4) approval [] waiting _ refl)

practice-Reach : Reach program fresh after_practice
unfolding enrolled milestones record_requirement completion_request decide decided is_ready
    progress_of unlock_dependents replace_progress recorded evaluate_milestone sorted_results
    put_result
practice-Reach =
    next (next here (recorded_result 3 3 "evt-1" basics passed fresh _ refl refl))
      (recorded_result 4 4 "evt-2" practice passed after_basics _ refl refl)

graph : graph_ok program ≡ true
unfolding graph_ok
graph = refl

milestones-in_order_example : in_order [] (milestones program) ≡ true
milestones-in_order_example = milestones-in_order program graph

reached-valid_example :
    (enrollment_ok certified ≡ true)
    × (progress_ids certified.milestones ≡ ids (milestones program))
    × (length certified.audit_event_ids ≡ certified.revision)
reached-valid_example =
    reached-valid 1 program ref "e" "learner" "evt-0" certified graph certified-Reach

completed-approved_example : IsCertified certified × RequiredCompleted program certified.milestones
unfolding enrolled milestones record_requirement completion_request decide decided is_ready
    progress_of unlock_dependents replace_progress recorded evaluate_milestone sorted_results
    put_result fits
completed-approved_example =
    completed-approved 1 program ref "e" "learner" "evt-0" certified graph certified-Reach refl

reached-open_example :
    (all_completed after_practice.milestones || any is_open after_practice.milestones) ≡ true
reached-open_example =
    reached-open 1 program ref "e" "learner" "evt-0" after_practice graph practice-Reach

abbrev context : ReviewContext
context = record {
  program_id = some "ax";
  program_version = some "1.0.0";
  enrollment_id = some "e";
  milestone_id = some "basics";
  learner_ref = some "learner";
  proposer_org_id = none;
}

-- After the last result, before the request for the decision.
finished-refused_example :
    (is_ok (start 9 "evt-9" after_practice none "basics") ≡ false)
    × (is_ok (bind_project 9 "evt-9" after_practice program basics context "p" none) ≡ false)
    × (is_ok (record_requirement 9 "evt-9" after_practice program basics passed) ≡ false)
    × (is_ok (decide "evt-9" after_practice none approval []) ≡ false)
unfolding enrolled milestones record_requirement completion_request decide decided is_ready
    progress_of unlock_dependents replace_progress recorded evaluate_milestone sorted_results
    put_result
finished-refused_example =
    finished-refused after_practice 9 "evt-9" "basics" "p" none program basics context none passed
      approval [] refl refl

record_requirement-records_example :
    (p : MilestoneProgress) × (q : MilestoneProgress) × (progress_of "basics" fresh.milestones
      ≡ ok p)
    × (progress_of "basics" after_basics.milestones ≡ ok q)
    × ((k : String)
        → result_of k q.requirement_results
          ≡ (if "quiz" == k then some passed else result_of k p.requirement_results))
    × (is_completed q.status ≡ rule_met all_required (quiz ∷ []) q.requirement_results)
unfolding enrolled milestones record_requirement completion_request decide decided is_ready
    progress_of unlock_dependents replace_progress recorded evaluate_milestone sorted_results
    put_result enrollment_ok progress_ok
record_requirement-records_example =
    record_requirement-records 3 "evt-1" fresh
      (candidate fresh (record_requirement 3 "evt-1" fresh program basics passed)) program basics
      passed refl refl

abbrev call : Call
call = record_manual_confirmation "basics" "quiz" "t" instructor "x"

abbrev no_dossiers : String → Result Refusal ProjectView
no_dossiers id = err no_dossier

abbrev confirmed : EducationEnrollment
confirmed = candidate fresh (apply program sha no_dossiers 100 3 "evt-1" call fresh (some 1))

apply-IsPermitted_example :
    Step program fresh (saved 4 confirmed)
    × IsCurrent fresh (some 1)
    × IsPermitted program sha 100 call fresh
unfolding apply milestone_of manual_result requirement_of enrolled milestones record_requirement
    progress_of unlock_dependents replace_progress recorded evaluate_milestone sorted_results
    put_result
apply-IsPermitted_example =
    apply-IsPermitted program sha no_dossiers 100 3 "evt-1" call 4 fresh confirmed (some 1) refl

abbrev enrollments : Files EducationEnrollment
enrollments = write "AXE-e.enrollment.yaml" fresh (λ _. none)

-- The ASCII digits.
abbrev is_digit : ℕ → Bool
is_digit c = leb b'0' c && leb c b'9'

abbrev saved_once : EducationEnrollment
saved_once = record after_basics { revision = 2; updated_at = 7 }

abbrev once : Files EducationEnrollment
once = (save is_digit 100 7 after_basics 1 enrollments).1

-- Two callers that both loaded revision 1.
save_once_example :
    (load is_digit 100 "e" once ≡ ok saved_once)
    × (saved_once.revision ≡ 2)
    × (save is_digit 100 8 fresh 1 once ≡ (err revision_conflict, once))
unfolding save load write is_safe_name enrolled milestones record_requirement progress_of
    unlock_dependents replace_progress recorded evaluate_milestone sorted_results put_result
    content_ok fits enrollment_ok progress_ok
save_once_example =
    save_once is_digit 100 7 after_basics saved_once 1 enrollments once refl refl 8 fresh refl refl

-- A copy that waits for a decision without a notice, which its contract forbids.
abbrev unasked : EducationEnrollment
unasked = record fresh { status = Enrollment.completion_hitl_pending }

abbrev saved_unasked : EducationEnrollment
saved_unasked = record unasked { revision = 2; updated_at = 7 }

abbrev broken : Files EducationEnrollment
broken = (save is_digit 100 7 unasked 1 enrollments).1
