-- ===== src/Executor/Async/Agreement.antt =====
-- The asynchronous entry point against the synchronous one: the two bodies `_aexecute_locked` and
-- `_execute_locked` (src/axcalib/runtime/execution.py).
use axcalib.Prelude.{ℕ, String, ◌≡◌, refl, Bool, true, false, none, ◌+◌, Bool-cases, inl, inr}
use axcalib.Exec.{Result, ok, err}
use axcalib.Pipelines.{Context, Exception, Output, Binding, Registry, binding}
use axcalib.Executor.{
  Moment, at_prepare, at_check, at_start, at_recheck, at_end, running, cancelled, RunError,
  RunRecord, RunFiles, RunStatus, Digests, is_cancelled, output_status, prepare_run, update_run,
  fail_run, finish_run, check_result, run_output, run_request, run_bound, returned,
  execute_prepared, execute_locked, execute,
}
use axcalib.Executor.Async.{
  arun_failed, arun_stored, arun_status, arun_validated, arun_awaited, arun_requested, arun_bound,
  aresult, aexecute_prepared, aexecute_locked, aexecute,
}

module _ {Request : Type 0} (g : Digests Request) (id version : String) (payload : Request)
    (c : Context) (at : Moment → ℕ) where
  failed-same :
      (r : RunRecord) (x : Exception) (files : RunFiles)
      → arun_failed g at c r x files ≡ fail_run g (at at_end) r x files
  unfolding arun_failed fail_run
  failed-same r x files = refl

  status-same :
      (r : RunRecord) (output : Output) (s : Result Exception RunStatus) (files : RunFiles)
      → arun_status g at c r output s files ≡ finish_run g at c r output s files
  unfolding arun_status finish_run arun_stored
  status-same r output (err x) files = failed-same r x files
  status-same r output (ok status) files =
      elim (Bool-cases (is_cancelled g (at at_recheck) c files)) [
        | inl e ↦ rw e refl
        | inr e ↦ rw e refl
      ]

  validated-same :
      (r : RunRecord) (output : Result Exception Output) (files : RunFiles)
      → arun_validated g at c r output files ≡ check_result g at c r output files
  unfolding arun_validated check_result
  validated-same r (err x) files = failed-same r x files
  validated-same r (ok output) files = status-same r output (output_status output.status) files

  awaited-same :
      (b : Binding Request RunFiles) (r : RunRecord) (v : Result Exception Output × RunFiles)
      → arun_awaited g at c b r v ≡ run_output g at b c r v
  unfolding arun_awaited run_output
  awaited-same b r (err x, files) = failed-same r x files
  awaited-same b r (ok output, files) = validated-same r (b.validate_result output) files

  requested-same :
      (b : Binding Request RunFiles) (r : RunRecord) (q : Result Exception Request)
      (files : RunFiles)
      → b.arun ≡ b.run
      → arun_requested g at c b r q files ≡ run_request g at b c r q files
  unfolding arun_requested run_request arun_awaited run_output
  requested-same b r (err x) files same = failed-same r x files
  requested-same b r (ok request) files same = rw same (awaited-same b r (b.run request c files))

  bound-same :
      (bound : Result Exception (Binding Request RunFiles)) (v : RunRecord × RunFiles)
      → ((b : Binding Request RunFiles) → bound ≡ ok b → b.arun ≡ b.run)
      → arun_bound g at c bound payload v ≡ run_bound g at bound payload c v
  unfolding arun_bound run_bound
  bound-same (err x) (r, files) same = failed-same r x files
  bound-same (ok b) (r, files) same =
      requested-same b r (b.validate_request payload) files (same b refl)

  result-same :
      (replayed : Bool) (v : RunRecord × RunFiles)
      → aresult g at c replayed v ≡ returned g replayed v
  unfolding aresult returned
  result-same replayed (r, files) = refl

  prepared-same :
      (bound : Result Exception (Binding Request RunFiles)) (r : Result RunError RunRecord)
      (files : RunFiles)
      → ((b : Binding Request RunFiles) → bound ≡ ok b → b.arun ≡ b.run)
      → aexecute_prepared g at c bound payload r files
        ≡ execute_prepared g at bound payload c r files
  unfolding aexecute_prepared execute_prepared
  prepared-same bound (err x) files same = refl
  prepared-same bound (ok r) files same =
      let v = update_run (at at_start) r running (r.attempt + 1) none none none files in
      rw
        (
          result-same true (r, files),
          result-same false (update_run (at at_check) r cancelled r.attempt none none none files),
          bound-same bound v same,
          result-same false (run_bound g at bound payload c v),
        )
        refl

  -- If the two entry points of the pipeline that is called are the same function, as for a pipeline
  -- that does not override `arun`, `aexecute` and `execute` return the same and leave the same files.
  pub aexecute-execute :
      (registry : Registry Request RunFiles) (files : RunFiles)
      → ((b : Binding Request RunFiles) → binding id version registry ≡ ok b → b.arun ≡ b.run)
      → aexecute g at registry id version payload c files
        ≡ execute g at registry id version payload c files
  unfolding aexecute execute aexecute_locked execute_locked
  aexecute-execute registry files same =
      let (r, files') =
        prepare_run g (at at_prepare) id version (g.request_sha256 payload) c files in
      rw (prepared-same (binding id version registry) r files' same) refl
