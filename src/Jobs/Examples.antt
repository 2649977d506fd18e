-- ===== src/Jobs/Examples.antt =====
-- Runs of the queue with one job.
use axcalib.Prelude.{ℕ, ◌≡◌, refl, false, none, some, [], ◌∷◌}
use axcalib.Exec.{Result, ok}
use axcalib.Files.{Files, write}
use axcalib.Identifiers.{is_safe_id}
use axcalib.Pipelines.{
  Context, Exception, Output, absent, Registry, binding, cancellation_requested,
}
use axcalib.Executor
use axcalib.Executor.{
  Digests, RunFiles, ExecutionResult, RunFile, succeeded, execute, prepare_run, is_cancelled,
  result_from_record, record_path, result_path, cancel_path, as_output,
}
use axcalib.Jobs.{
  Json, object, no_members, member, scalar, JobRecord, queued, claimed, JobFile, job, Queue,
  Settings, load_path, record_ok, payload_ok, is_available, claim_record, claim_next, execute_claim,
  owns, same_claim, finished_record, job_path,
}
use axcalib.Jobs.Claims.{IsClaimed, claim_next-IsClaimed}
use axcalib.Jobs.Finish.{IsExecuted, execute_claim-IsExecuted}

abbrev payload : Json
payload = object (member "topic" (scalar "x") no_members)

abbrev settings : Settings
settings = record {
  max_attempts = 3;
  retry_backoff = 1000000;
  digests = record { request_sha256 = λ v. "d"; file_sha256 = λ f. "f" };
  rules = record { casefold = λ key. key; size = λ v. 13 };
}

abbrev context : Context
context = record {
  run_id = "a";
  actor_id = "local";
  actor_role = "system";
  idempotency_key = none;
  expected_revision = none;
  requested_at = 1;
  deadline_at = none;
  cancel_requested = false;
  metadata = [];
}

abbrev waiting : JobRecord
waiting = record {
  run_id = "a";
  pipeline_id = "echo";
  pipeline_version = "1";
  request_sha256 = "d";
  payload = payload;
  context = context;
  status = queued;
  queued_at = 5;
  updated_at = 5;
  available_at = 5;
  max_attempts = 3;
  claim_id = none;
  worker_id = none;
  lease_expires_at = none;
  final_run_status = none;
  error_code = none;
}

abbrev no_runs : RunFiles
no_runs name = none

abbrev queue : Queue
queue = record { names = "job-a.json" ∷ []; files = λ name. some (job waiting); runs = no_runs }

abbrev claim : JobRecord
claim = record waiting {
  status = claimed;
  updated_at = 6;
  claim_id = some "claim-1";
  worker_id = some "w1";
  lease_expires_at = some 1000006;
}

abbrev claimed_queue : Queue
claimed_queue = record queue { files = write "job-a.json" (job claim) queue.files }

claims : claim_next settings "claim-1" "w1" 1000000 6 queue ≡ (ok (some claim), claimed_queue)
unfolding claim_next claim_record load_path record_ok payload_ok is_available is_safe_id job_path
claims = refl

claim_next-IsClaimed_example : IsClaimed settings "claim-1" "w1" 1000000 6 queue claim claimed_queue
claim_next-IsClaimed_example =
    claim_next-IsClaimed settings "claim-1" "w1" 1000000 6 queue claimed_queue claim claims

abbrev echo : Json → Context → RunFiles → Result Exception Output × RunFiles
echo request c files = (ok (record { status = absent; body = "hi" }), files)

abbrev registry : Registry Json RunFiles
registry =
    (
      ("echo", "1"),
      record {
        validate_request = λ request. ok request;
        run = echo;
        arun = echo;
        validate_result = λ output. ok output;
      },
    )
    ∷ []

abbrev clock : Executor.Moment → ℕ
clock m = 7

abbrev meanwhile : Files JobFile → Files JobFile
meanwhile files = files

abbrev result : ExecutionResult
result = record {
  run_id = "a";
  pipeline_id = "echo";
  pipeline_version = "1";
  status = succeeded;
  attempt = 1;
  output = some (record { status = absent; body = "hi" });
  error_code = none;
  replayed = false;
}

executes :
    (execute_claim settings clock registry meanwhile claim "w1" 7 8 claimed_queue).0 ≡ ok result
unfolding execute_claim claim_record load_path record_ok payload_ok is_safe_id job_path owns
    same_claim finished_record write execute prepare_run is_cancelled result_from_record record_path
    result_path cancel_path as_output binding cancellation_requested
executes = refl

execute_claim-IsExecuted_example :
    IsExecuted settings claim "w1" 7 8 meanwhile claimed_queue result
      (execute_claim settings clock registry meanwhile claim "w1" 7 8 claimed_queue).1
execute_claim-IsExecuted_example =
    execute_claim-IsExecuted settings clock registry meanwhile claim "w1" 7 8 claimed_queue result
      (execute_claim settings clock registry meanwhile claim "w1" 7 8 claimed_queue).1
      (λ i. (
        executes i,
        (execute_claim settings clock registry meanwhile claim "w1" 7 8 claimed_queue).1,
      ))
