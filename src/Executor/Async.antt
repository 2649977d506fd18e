-- ===== src/Executor/Async.antt =====
-- The asynchronous entry point of the executor, `aexecute` with its own body `_aexecute_locked`
-- (src/axcalib/runtime/execution.py), which awaits the pipeline's `arun`.
pub mod Agreement
use axcalib.Prelude.{ℕ, ◌+◌, String, Bool, true, false, not, none, some, if◌then◌else◌}
use axcalib.Exec.{Result, ok, err, Exec}
use axcalib.Identifiers.{is_safe_id}
use axcalib.Pipelines.{Context, Exception, Output, Binding, Registry, binding}
use axcalib.Executor.{
  Moment, at_prepare, at_check, at_start, at_recheck, at_end, RunError, invalid_run_id, RunStatus,
  running, cancelled, RunRecord, RunFiles, Digests, ExecutionResult, is_terminal, is_cancelled,
  prepare_run, update_run, store_result, failure_status, output_status, result_from_record,
}

module _ {Request : Type 0} (g : Digests Request) (at : Moment → ℕ) (c : Context) where
  -- The `except` of `_aexecute_locked`.
  arun_failed : RunRecord → Exception → RunFiles → RunRecord × RunFiles
  arun_failed r x files =
      update_run (at at_end) r (failure_status x) r.attempt none none (some x.class_name) files

  -- Behind the second look for a cancellation.
  arun_stored : RunRecord → RunStatus → Output → Bool → RunFiles → RunRecord × RunFiles
  arun_stored r status output true files = store_result g (at at_end) r cancelled none files
  arun_stored r status output false files = store_result g (at at_end) r status (some output) files

  -- `_output_status` of the validated output.
  arun_status : RunRecord → Output → Result Exception RunStatus → RunFiles → RunRecord × RunFiles
  arun_status r output (err x) files = arun_failed r x files
  arun_status r output (ok status) files =
      arun_stored r status output (is_cancelled g (at at_recheck) c files) files

  -- `validate_result`
  arun_validated : RunRecord → Result Exception Output → RunFiles → RunRecord × RunFiles
  arun_validated r (err x) files = arun_failed r x files
  arun_validated r (ok output) files = arun_status r output (output_status output.status) files

  -- The awaited `arun`.
  arun_awaited :
      Binding Request RunFiles
      → RunRecord
      → Result Exception Output × RunFiles
      → RunRecord × RunFiles
  arun_awaited b r (err x, files) = arun_failed r x files
  arun_awaited b r (ok output, files) = arun_validated r (b.validate_result output) files

  -- `validate_request`, and the pipeline that is created.
  arun_requested :
      Binding Request RunFiles
      → RunRecord
      → Result Exception Request
      → RunFiles
      → RunRecord × RunFiles
  arun_requested b r (err x) files = arun_failed r x files
  arun_requested b r (ok request) files = arun_awaited b r (b.arun request c files)

  -- The `try` of `_aexecute_locked` on a record that is running.
  arun_bound :
      Result Exception (Binding Request RunFiles)
      → Request
      → RunRecord × RunFiles
      → RunRecord × RunFiles
  arun_bound (err x) payload (r, files) = arun_failed r x files
  arun_bound (ok b) payload (r, files) = arun_requested b r (b.validate_request payload) files

  aresult : Bool → RunRecord × RunFiles → Result RunError ExecutionResult × RunFiles
  aresult replayed (r, files) = (result_from_record g r replayed files, files)

  -- `_aexecute_locked` behind `_prepare`
  aexecute_prepared :
      Result Exception (Binding Request RunFiles)
      → Request
      → Result RunError RunRecord
      → Exec RunFiles RunError ExecutionResult
  aexecute_prepared bound payload (err x) files = (err x, files)
  aexecute_prepared bound payload (ok r) files =
      if is_terminal r.status
      then aresult true (r, files)
      else if is_cancelled g (at at_check) c files
      then aresult false (update_run (at at_check) r cancelled r.attempt none none none files)
      else aresult false (
          arun_bound bound payload
            (update_run (at at_start) r running (r.attempt + 1) none none none files))

  aexecute_locked :
      Registry Request RunFiles → String → String → Request → Exec RunFiles RunError ExecutionResult
  unfolding aexecute_prepared aresult arun_bound arun_requested arun_awaited arun_validated
      arun_status arun_stored arun_failed
  aexecute_locked registry id version payload files =
      let (prepared_, files') =
        prepare_run g (at at_prepare) id version (g.request_sha256 payload) c files in
      aexecute_prepared (binding id version registry) payload prepared_ files'

-- `aexecute`: a run ID that is unsafe is refused with the context.
unfoldable pub aexecute :
    {Request : Type 0}
    → Digests Request
    → (Moment → ℕ)
    → Registry Request RunFiles
    → String
    → String
    → Request
    → Context
    → Exec RunFiles RunError ExecutionResult
unfolding aexecute_locked
aexecute g at registry id version payload c files =
    if not (is_safe_id c.run_id)
    then (err invalid_run_id, files)
    else aexecute_locked g at c registry id version payload files
