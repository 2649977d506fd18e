-- ===== src/Executor.antt =====
-- The local pipeline executor (src/axcalib/runtime/execution.py) on the files of its root. Each call
-- holds the lease of its run, so its writes are not mixed with those of another call for the same
-- run; a pipeline may change any file while it runs. Readings of the clock are arguments.
mod Paths
mod Checkpoint
pub mod Replay
pub mod Async
pub mod Collision
mod Examples
unfoldable pub use Paths.*
unfoldable pub use Checkpoint.*
use axcalib.Prelude.{
  ℕ, ◌+◌, String, Bool, true, false, not, ◌&&◌, ◌||◌, Option, none, some, ◌==◌, string_eq,
  option_eq, is_some, if◌then◌else◌,
}
use axcalib.Exec.{Result, ok, err, Exec}
use axcalib.Files.{Files, write}
use axcalib.Identifiers.{is_safe_id}
use axcalib.Pipelines.{
  Context, cancellation_requested, same_identity, Exception, Output, StatusField, Binding, Registry,
  binding,
}

pub data Moment : Type 0 where
  at_prepare at_check at_start at_recheck at_end : Moment

-- A file that must hold a checkpoint.
as_record : Option RunFile → Option (Result RunError RunRecord)
as_record none = none
as_record (some (run_record r)) = some (ok r)
as_record (some f) = some (err invalid_record)

module _ {Request : Type 0} (g : Digests Request) where
  prepared_record :
      String → String → String → Context → RunRecord → Exec RunFiles RunError RunRecord
  prepared_record id version sha256 c current files =
      if not (current.pipeline_id == id)
        || (not (current.pipeline_version == version)
            || (not (current.request_sha256 == sha256) || not (same_identity current.context c)))
      then (err run_conflict, files)
      else (ok current, files)

  new_record : ℕ → String → String → String → Context → RunRecord
  new_record now id version sha256 c = record {
    context = c;
    pipeline_id = id;
    pipeline_version = version;
    request_sha256 = sha256;
    status = prepared;
    prepared_at = now;
    updated_at = now;
    attempt = 0;
    result_uri = none;
    result_sha256 = none;
    error_code = none;
  }

  prepare_found :
      ℕ
      → String
      → String
      → String
      → Context
      → Option (Result RunError RunRecord)
      → Exec RunFiles RunError RunRecord
  prepare_found now id version sha256 c none files =
      let r = new_record now id version sha256 c in
      (ok r, write (record_path c.run_id) (run_record r) files)
  prepare_found now id version sha256 c (some (err x)) files = (err x, files)
  prepare_found now id version sha256 c (some (ok current)) files =
      prepared_record id version sha256 c current files

  -- `_prepare`
  unfoldable pub prepare_run :
      ℕ → String → String → String → Context → Exec RunFiles RunError RunRecord
  unfolding prepared_record new_record prepare_found as_record
  prepare_run now id version sha256 c files =
      prepare_found now id version sha256 c (as_record (files (record_path c.run_id))) files

  -- `_cancelled` at the time `now`
  unfoldable pub is_cancelled : ℕ → Context → RunFiles → Bool
  is_cancelled now c files = cancellation_requested c now || is_some (files (cancel_path c.run_id))

  -- The `except` of `_execute_locked`.
  fail_run : ℕ → RunRecord → Exception → RunFiles → RunRecord × RunFiles
  fail_run now r x files =
      update_run now r (failure_status x) r.attempt none none (some x.class_name) files

  -- From the validated output on: its status, the second look for a cancellation, the result.
  finish_run :
      (Moment → ℕ)
      → Context
      → RunRecord
      → Output
      → Result Exception RunStatus
      → RunFiles
      → RunRecord × RunFiles
  finish_run at c r output (err x) files = fail_run (at at_end) r x files
  finish_run at c r output (ok status) files =
      if is_cancelled (at at_recheck) c files
      then store_result g (at at_end) r cancelled none files
      else store_result g (at at_end) r status (some output) files

  check_result :
      (Moment → ℕ) → Context → RunRecord → Result Exception Output → RunFiles → RunRecord × RunFiles
  check_result at c r (err x) files = fail_run (at at_end) r x files
  check_result at c r (ok output) files =
      finish_run at c r output (output_status output.status) files

  run_output :
      (Moment → ℕ)
      → Binding Request RunFiles
      → Context
      → RunRecord
      → Result Exception Output × RunFiles
      → RunRecord × RunFiles
  run_output at b c r (err x, files) = fail_run (at at_end) r x files
  run_output at b c r (ok output, files) = check_result at c r (b.validate_result output) files

  run_request :
      (Moment → ℕ)
      → Binding Request RunFiles
      → Context
      → RunRecord
      → Result Exception Request
      → RunFiles
      → RunRecord × RunFiles
  run_request at b c r (err x) files = fail_run (at at_end) r x files
  run_request at b c r (ok request) files = run_output at b c r (b.run request c files)

  -- The `try` of `_execute_locked` on a record that is running.
  run_bound :
      (Moment → ℕ)
      → Result Exception (Binding Request RunFiles)
      → Request
      → Context
      → RunRecord × RunFiles
      → RunRecord × RunFiles
  run_bound at (err x) payload c (r, files) = fail_run (at at_end) r x files
  run_bound at (ok b) payload c (r, files) = run_request at b c r (b.validate_request payload) files

  returned : Bool → RunRecord × RunFiles → Result RunError ExecutionResult × RunFiles
  returned replayed (r, files) = (result_from_record g r replayed files, files)

  -- `_execute_locked` behind `_prepare`
  execute_prepared :
      (Moment → ℕ)
      → Result Exception (Binding Request RunFiles)
      → Request
      → Context
      → Result RunError RunRecord
      → Exec RunFiles RunError ExecutionResult
  execute_prepared at bound payload c (err x) files = (err x, files)
  execute_prepared at bound payload c (ok r) files =
      if is_terminal r.status
      then returned true (r, files)
      else if is_cancelled (at at_check) c files
      then returned false (update_run (at at_check) r cancelled r.attempt none none none files)
      else returned false (
          run_bound at bound payload c
            (update_run (at at_start) r running (r.attempt + 1) none none none files))

  execute_locked :
      (Moment → ℕ)
      → Registry Request RunFiles
      → String
      → String
      → Request
      → Context
      → Exec RunFiles RunError ExecutionResult
  unfolding execute_prepared returned run_bound run_request run_output check_result finish_run
      fail_run update_run store_result failure_status output_status
  execute_locked at registry id version payload c files =
      let (prepared_, files') =
        prepare_run (at at_prepare) id version (g.request_sha256 payload) c files in
      execute_prepared at (binding id version registry) payload c prepared_ files'

  -- `execute`: a run ID that is unsafe is refused with the context.
  unfoldable pub execute :
      (Moment → ℕ)
      → Registry Request RunFiles
      → String
      → String
      → Request
      → Context
      → Exec RunFiles RunError ExecutionResult
  unfolding execute_locked
  execute at registry id version payload c files =
      if not (is_safe_id c.run_id)
      then (err invalid_run_id, files)
      else execute_locked at registry id version payload c files

  validated_request :
      Result Exception (Binding Request RunFiles) → Request → Result Exception Request
  validated_request (err x) payload = err x
  validated_request (ok b) payload = b.validate_request payload

  prepare_validated :
      ℕ
      → String
      → String
      → Context
      → Result Exception Request
      → Exec RunFiles RunError ExecutionResult
  prepare_validated now id version c (err x) files = (err (raised x), files)
  prepare_validated now id version c (ok request) files =
      let existed = is_some (files (record_path c.run_id)) in
      let (prepared_, files') = prepare_run now id version (g.request_sha256 request) c files in
      (elim prepared_ [ err x ↦ err x | ok r ↦ result_from_record g r existed files' ], files')

  -- `prepare`: a checkpoint without a run.
  unfoldable pub prepare :
      ℕ
      → Registry Request RunFiles
      → String
      → String
      → Request
      → Context
      → Exec RunFiles RunError ExecutionResult
  unfolding validated_request prepare_validated prepare_run
  prepare now registry id version payload c files =
      if not (is_safe_id c.run_id)
      then (err invalid_run_id, files)
      else prepare_validated now id version c
          (validated_request (binding id version registry) payload) files

  -- `request_cancel`; an existing request stays. The actor's ID has a length that a context takes.
  unfoldable pub request_cancel : String → String → Exec RunFiles RunError String
  request_cancel run_id actor_id files =
      if not (is_safe_id run_id)
      then (err invalid_run_id, files)
      else if is_some (files (cancel_path run_id))
      then (ok (cancel_path run_id), files)
      else (ok (cancel_path run_id), write (cancel_path run_id) (cancel_request actor_id) files)

  loaded : Option (Result RunError RunRecord) → Result RunError RunRecord
  loaded none = err run_not_found
  loaded (some r) = r

  -- `load` and `inspect`
  unfoldable pub load : String → RunFiles → Result RunError RunRecord
  unfolding loaded as_record
  load run_id files =
      if not (is_safe_id run_id)
      then err invalid_run_id
      else loaded (as_record (files (record_path run_id)))

  unfoldable pub inspect : String → RunFiles → Result RunError ExecutionResult
  unfolding load
  inspect run_id files = elim (load run_id files) [
    | err x ↦ err x
    | ok r ↦ result_from_record g r false files
  ]
