-- ===== src/Executor/Checkpoint.antt =====
-- The checkpoint of a run and the envelope that is returned for it: `PipelineRunRecord`,
-- `PipelineExecutionResult`, `_update`, `_store_result` and `_result_from_record` of
-- src/axcalib/runtime/execution.py.
use axcalib.Prelude.{
  ℕ, String, Bool, true, false, not, Option, none, some, ◌==◌, string_eq, option_eq, if◌then◌else◌,
}
use axcalib.Exec.{Result, ok, err}
use axcalib.Executor.Paths.{record_path, result_path}
use axcalib.Files.{Files, write}
use axcalib.Pipelines.{Context, Exception, Output, StatusField, absent, text, other_value}

pub data RunStatus : Type 0 where
  prepared running succeeded waiting_human blocked stale : RunStatus
  retryable_failure terminal_failure cancelled : RunStatus

-- `status in TERMINAL_RUN_STATUSES`
abbrev pub is_terminal : RunStatus → Bool
is_terminal prepared = false
is_terminal running = false
is_terminal retryable_failure = false
is_terminal _ = true

-- `PipelineRunStatus(str(raw))`
abbrev pub parse_status : String → Option RunStatus
parse_status s =
    if s == "prepared"
    then some prepared
    else if s == "running"
    then some running
    else if s == "succeeded"
    then some succeeded
    else if s == "waiting_human"
    then some waiting_human
    else if s == "blocked"
    then some blocked
    else if s == "stale"
    then some stale
    else if s == "retryable_failure"
    then some retryable_failure
    else if s == "terminal_failure"
    then some terminal_failure
    else if s == "cancelled"
    then some cancelled
    else none

pub record RunRecord : Type 0 where
  pub context : Context
  pub pipeline_id : String
  pub pipeline_version : String
  pub request_sha256 : String
  pub status : RunStatus
  pub prepared_at : ℕ
  pub updated_at : ℕ
  pub attempt : ℕ
  pub result_uri : Option String
  pub result_sha256 : Option String
  pub error_code : Option String

-- What a file of the root holds.
pub data RunFile : Type 0 where
  run_record : RunRecord → RunFile
  run_result : Output → RunFile
  cancel_request : String → RunFile

pub record ExecutionResult : Type 0 where
  pub run_id : String
  pub pipeline_id : String
  pub pipeline_version : String
  pub status : RunStatus
  pub attempt : ℕ
  pub output : Option Output
  pub error_code : Option String
  pub replayed : Bool

-- `raised` is an exception that no handler of the executor takes.
pub data RunError : Type 0 where
  run_conflict run_integrity invalid_record run_not_found invalid_run_id : RunError
  raised : Exception → RunError

abbrev pub RunFiles : Type 0
RunFiles = Files RunFile

-- `json.loads` of a result file. A file of another kind with a result's hash is not told apart.
unfoldable pub as_output : RunFile → Option Output
as_output (run_result o) = some o
as_output _ = none

-- `_output_status`; `str` of a value that is no text names no status.
unfoldable pub output_status : StatusField → Result Exception RunStatus
output_status absent = ok succeeded
output_status other_value = err (record { class_name = "ValueError"; transient = false })
output_status (text s) = elim (parse_status s) [
  | none ↦ err (record { class_name = "ValueError"; transient = false })
  | some status ↦ ok status
]

-- `_failure_status`
unfoldable pub failure_status : Exception → RunStatus
failure_status x = if x.transient then retryable_failure else terminal_failure

-- `_update` at the time `now`
unfoldable pub update_run :
    ℕ
    → RunRecord
    → RunStatus
    → ℕ
    → Option String
    → Option String
    → Option String
    → RunFiles
    → RunRecord × RunFiles
update_run now r status attempt uri sha256 error_code files =
    let updated = record r {
      status = status;
      updated_at = now;
      attempt = attempt;
      result_uri = uri;
      result_sha256 = sha256;
      error_code = error_code;
    } in
    (updated, write (record_path r.context.run_id) (run_record updated) files)

-- SHA-256 of a request's canonical JSON and of a file.
pub record Digests (Request : Type 0) : Type 0 where
  pub request_sha256 : Request → String
  pub file_sha256 : RunFile → String

module _ {Request : Type 0} (g : Digests Request) where
  -- `_store_result`
  unfoldable pub store_result :
      ℕ → RunRecord → RunStatus → Option Output → RunFiles → RunRecord × RunFiles
  store_result now r status none files = update_run now r status r.attempt none none none files
  store_result now r status (some output) files =
      let path = result_path r.context.run_id in
      update_run now r status r.attempt (some path) (some (g.file_sha256 (run_result output))) none
        (write path (run_result output) files)

  -- The output that a checkpoint refers to: in the run's own result file, with its hash.
  unfoldable pub checked_output : RunRecord → Option RunFile → Result RunError (Option Output)
  checked_output r none = err run_integrity
  checked_output r (some f) =
      if not (some (g.file_sha256 f) == r.result_sha256)
      then err run_integrity
      else ok (as_output f)

  unfoldable pub stored_output :
      RunRecord → Option String → RunFiles → Result RunError (Option Output)
  stored_output r none files = ok none
  stored_output r (some uri) files =
      if uri == ""
      then ok none
      else if not (uri == result_path r.context.run_id)
      then err run_integrity
      else checked_output r (files uri)

  unfoldable pub envelope :
      RunRecord → Bool → Result RunError (Option Output) → Result RunError ExecutionResult
  envelope r replayed (err x) = err x
  envelope r replayed (ok output) = ok (record {
    run_id = r.context.run_id;
    pipeline_id = r.pipeline_id;
    pipeline_version = r.pipeline_version;
    status = r.status;
    attempt = r.attempt;
    output = output;
    error_code = r.error_code;
    replayed = replayed;
  })

  -- `_result_from_record`
  unfoldable pub result_from_record : RunRecord → Bool → RunFiles → Result RunError ExecutionResult
  unfolding checked_output stored_output envelope
  result_from_record r replayed files = envelope r replayed (stored_output r r.result_uri files)
