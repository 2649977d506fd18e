-- ===== src/Executor/Examples.antt =====
-- Runs of the executor with one pipeline, which returns its request.
use axcalib.Prelude.{
  ℕ, String, ◌≡◌, refl, sym, ap, ◌∙◌, true, false, none, some, [], ◌∷◌, string_eq,
}
use axcalib.Exec.{Result, ok, err}
use axcalib.Files.{write}
use axcalib.Identifiers.{is_safe_id}
use axcalib.Pipelines.{
  Context, cancellation_requested, Exception, Output, absent, Binding, Registry, binding, register,
}
use axcalib.Executor.{
  Moment, RunFiles, RunRecord, succeeded, run_record, Digests, ExecutionResult, record_path,
  result_path, cancel_path, prepare_run, is_cancelled, execute, result_from_record, as_output,
}
use axcalib.Executor.Replay.Twice.{execute-execute}
use axcalib.Executor.Async.{aexecute}
use axcalib.Executor.Async.Agreement.{aexecute-execute}
use axcalib.Executor.Collision.{prepare-is_cancelled}

abbrev echo : String → Context → RunFiles → Result Exception Output × RunFiles
echo request c files = (ok (record { status = absent; body = request }), files)

abbrev echo_binding : Binding String RunFiles
echo_binding = record {
  validate_request = λ request. ok request;
  run = echo;
  arun = echo;
  validate_result = λ output. ok output;
}

abbrev registry : Registry String RunFiles
registry = (("echo", "1"), echo_binding) ∷ []

abbrev digests : Digests String
digests = record { request_sha256 = λ request. request; file_sha256 = λ f. "f" }

abbrev context_of : String → Context
context_of run_id = record {
  run_id = run_id;
  actor_id = "local";
  actor_role = "system";
  idempotency_key = none;
  expected_revision = none;
  requested_at = 1;
  deadline_at = none;
  cancel_requested = false;
  metadata = [];
}

abbrev context : Context
context = context_of "a"

abbrev no_runs : RunFiles
no_runs name = none

abbrev clock : Moment → ℕ
clock m = 3

abbrev result : ExecutionResult
result = record {
  run_id = "a";
  pipeline_id = "echo";
  pipeline_version = "1";
  status = succeeded;
  attempt = 1;
  output = some (record { status = absent; body = "hi" });
  error_code = none;
  replayed = false;
}

safe_a : is_safe_id "a" ≡ true
unfolding is_safe_id
safe_a = refl

runs_a : (execute digests clock registry "echo" "1" "hi" context no_runs).0 ≡ ok result
unfolding execute prepare_run is_cancelled cancellation_requested result_from_record record_path
    result_path cancel_path binding as_output is_safe_id write
runs_a = refl

execute-execute_example :
    let v = (execute digests clock registry "echo" "1" "hi" context no_runs).1 in
    execute digests clock registry "echo" "1" "hi" context v
    ≡ (ok (record result { replayed = true }), v)
execute-execute_example =
    execute-execute digests "echo" "1" "hi" context clock clock registry registry no_runs result
      safe_a (λ r e. absurd (cc e)) runs_a refl

abbrev record_a : RunRecord
record_a = record {
  context = context;
  pipeline_id = "echo";
  pipeline_version = "1";
  request_sha256 = "hi";
  status = succeeded;
  prepared_at = 1;
  updated_at = 2;
  attempt = 1;
  result_uri = none;
  result_sha256 = none;
  error_code = none;
}

abbrev files_a : RunFiles
files_a name = some (run_record record_a)

same_entries : (b : Binding String RunFiles) → binding "echo" "1" registry ≡ ok b → b.arun ≡ b.run
unfolding binding
same_entries b e =
    ap (λ (r : Result Exception (Binding String RunFiles)). elim r [ ok x ↦ x.arun | err x ↦ echo ])
      (sym e)
    ∙ ap
        (λ (r : Result Exception (Binding String RunFiles)). elim r [ ok x ↦ x.run | err x ↦ echo ])
        e

aexecute-execute_example :
    aexecute digests clock registry "echo" "1" "hi" context no_runs
    ≡ execute digests clock registry "echo" "1" "hi" context no_runs
aexecute-execute_example =
    aexecute-execute digests "echo" "1" "hi" context clock registry no_runs same_entries

prepare-is_cancelled_example :
    is_cancelled digests 9 context
      (prepare_run digests 3 "echo" "1" "hi" (context_of "a.cancel") no_runs).1
    ≡ true
prepare-is_cancelled_example =
    prepare-is_cancelled digests 3 9 "echo" "1" "hi" context (context_of "a.cancel") no_runs refl
      (unfold prepare_run in refl)

registered :
    register "echo" "2" echo_binding registry ≡ ok ((("echo", "2"), echo_binding) ∷ registry)
unfolding register binding
registered = refl
