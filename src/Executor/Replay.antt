-- ===== src/Executor/Replay.antt =====
-- What a run ID that is used again does: `_prepare` and `_execute_locked` of
-- src/axcalib/runtime/execution.py on a checkpoint that exists.
pub mod Twice
use axcalib.Prelude.{
  ℕ, ◌+◌, String, ◌≡◌, refl, Bool, true, false, not, ◌&&◌, ◌||◌, Option, none, some, arith, eq_iff,
  eq_refl, ◌==◌, string_eq, is_some, if◌then◌else◌, Bool-cases, Option-cases, inl, inr,
}
use axcalib.Exec.{Result, ok, err, is_ok, Exec, Result-cases}
use axcalib.Files.{Files, write, write_self}
use axcalib.Identifiers.{is_safe_id}
use axcalib.Pipelines.{
  Context, same_identity, same_identity_refl, Exception, Output, StatusField, Binding, Registry,
  binding,
}
use axcalib.Executor.{
  Moment, at_prepare, at_check, at_start, at_recheck, at_end, RunRecord, RunFile, RunFiles,
  run_record, run_conflict, RunStatus, cancelled, running, is_terminal, RunError, ExecutionResult,
  Digests, record_path, prepare_run, as_record, prepare_found, prepared_record, new_record,
  is_cancelled, update_run, store_result, output_status, result_from_record, fail_run, finish_run,
  check_result, run_output, run_request, run_bound, returned, execute_prepared, execute_locked,
  execute, envelope, stored_output, failure_status,
}

module _ {Request : Type 0} (g : Digests Request) (id version : String) (payload : Request)
    (c : Context) where
  -- The call's pipeline, request and context are those of the checkpoint `r`.
  unfoldable pub is_same_run : RunRecord → Bool
  is_same_run r =
      r.pipeline_id == id
      && (r.pipeline_version == version
          && (r.request_sha256 == g.request_sha256 payload && same_identity r.context c))

  prepared_record-is_same_run :
      (r : RunRecord) (files : RunFiles)
      → prepared_record g id version (g.request_sha256 payload) c r files
        ≡ ((if is_same_run r then ok r else err run_conflict), files)
  unfolding prepared_record is_same_run
  prepared_record-is_same_run r files = ground arith

  -- With a safe run ID whose checkpoint has ended, a call writes nothing. With the run's
  -- pipeline, request and context it returns what the checkpoint keeps, marked as replayed;
  -- any other call is a conflict.
  pub execute-is_terminal :
      (at : Moment → ℕ) (registry : Registry Request RunFiles) (r : RunRecord) (files : RunFiles)
      → is_safe_id c.run_id ≡ true
      → files (record_path c.run_id) ≡ some (run_record r)
      → is_terminal r.status ≡ true
      → execute g at registry id version payload c files
        ≡ ((if is_same_run r then result_from_record g r true files else err run_conflict), files)
  unfolding execute execute_locked prepare_run prepare_found as_record execute_prepared returned
  execute-is_terminal at registry r files safe found done = rw safe (
      rw found (
        rw (prepared_record-is_same_run r files)
          (elim (Bool-cases (is_same_run r)) [ inl e ↦ rw e (rw done) | inr e ↦ rw e ])))

  -- The checkpoint `r` is of this run.
  pub record IsOf (r : RunRecord) : Type 0 where
    pub same : is_same_run r ≡ true
    pub run_id : r.context.run_id ≡ c.run_id

  -- It also stands in its file.
  pub record IsKept (v : RunRecord × RunFiles) : Type 0 where
    pub of_run : IsOf v.0
    pub found : v.1 (record_path c.run_id) ≡ some (run_record v.0)

  update_run-IsKept :
      (now : ℕ) (r : RunRecord) (status : RunStatus) (attempt : ℕ)
      (uri sha256 error_code : Option String) (files : RunFiles)
      → IsOf r
      → IsKept (update_run now r status attempt uri sha256 error_code files)
  unfolding update_run is_same_run
  update_run-IsKept now r status attempt uri sha256 error_code files o = record {
    of_run = record { same = o.same; run_id = o.run_id };
    found = rw o.run_id (write_self (record_path c.run_id) _ files);
  }

  store_result-IsKept :
      (now : ℕ) (r : RunRecord) (status : RunStatus) (output : Option Output) (files : RunFiles)
      → IsOf r
      → IsKept (store_result g now r status output files)
  unfolding store_result
  store_result-IsKept now r status none files o = update_run-IsKept now r status _ _ _ _ files o
  store_result-IsKept now r status (some output) files o =
      update_run-IsKept now r status _ _ _ _ _ o

  module _ (at : Moment → ℕ) (r : RunRecord) (o : IsOf r) where
    fail_run-IsKept :
        (now : ℕ) (x : Exception) (files : RunFiles) → IsKept (fail_run g now r x files)
    unfolding fail_run
    fail_run-IsKept now x files = update_run-IsKept now r _ _ _ _ _ files o

    finish_run-IsKept :
        (output : Output) (status : Result Exception RunStatus) (files : RunFiles)
        → IsKept (finish_run g at c r output status files)
    unfolding finish_run
    finish_run-IsKept output (err x) files = fail_run-IsKept (at at_end) x files
    finish_run-IsKept output (ok status) files =
        elim (Bool-cases (is_cancelled g (at at_recheck) c files)) [
          | inl e ↦ rw e (store_result-IsKept (at at_end) r cancelled none files o)
          | inr e ↦ rw e (store_result-IsKept (at at_end) r status (some output) files o)
        ]

    check_result-IsKept :
        (output : Result Exception Output) (files : RunFiles)
        → IsKept (check_result g at c r output files)
    unfolding check_result
    check_result-IsKept (err x) files = fail_run-IsKept (at at_end) x files
    check_result-IsKept (ok output) files = finish_run-IsKept output _ files

    run_output-IsKept :
        (b : Binding Request RunFiles) (v : Result Exception Output × RunFiles)
        → IsKept (run_output g at b c r v)
    unfolding run_output
    run_output-IsKept b (err x, files) = fail_run-IsKept (at at_end) x files
    run_output-IsKept b (ok output, files) = check_result-IsKept (b.validate_result output) files

    run_request-IsKept :
        (b : Binding Request RunFiles) (request : Result Exception Request) (files : RunFiles)
        → IsKept (run_request g at b c r request files)
    unfolding run_request
    run_request-IsKept b (err x) files = fail_run-IsKept (at at_end) x files
    run_request-IsKept b (ok request) files = run_output-IsKept b (b.run request c files)

  run_bound-IsKept :
      (at : Moment → ℕ) (bound : Result Exception (Binding Request RunFiles))
      (v : RunRecord × RunFiles)
      → IsOf v.0
      → IsKept (run_bound g at bound payload c v)
  unfolding run_bound
  run_bound-IsKept at (err x) (r, files) o = fail_run-IsKept at r o (at at_end) x files
  run_bound-IsKept at (ok b) (r, files) o =
      run_request-IsKept at r o b (b.validate_request payload) files
