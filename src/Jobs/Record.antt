-- ===== src/Jobs/Record.antt =====
-- The record of a job, its validator and its file (`PipelineJobRecord`, `_load_path` and
-- `_is_available` of src/axcalib/runtime/worker.py). Times are in microseconds of one clock.
use axcalib.Prelude.{
  ◌+++◌, ℕ, String, Bool, true, false, not, ◌&&◌, Option, none, some, leb, is_some, is_none, ◌==◌,
  string_eq, if◌then◌else◌,
}
use axcalib.Exec.{Result, ok, err}
use axcalib.Identifiers.{is_safe_id}
use axcalib.Pipelines.{Context}
use axcalib.Executor.{RunStatus, RunError}
use axcalib.Jobs.Payload.{Json, PayloadRules, payload_ok}

pub data JobStatus : Type 0 where
  queued claimed completed exhausted blocked : JobStatus

-- `status in FINAL_JOB_STATUSES`
abbrev pub is_final : JobStatus → Bool
is_final queued = false
is_final claimed = false
is_final _ = true

pub record JobRecord : Type 0 where
  pub run_id : String
  pub pipeline_id : String
  pub pipeline_version : String
  pub request_sha256 : String
  pub payload : Json
  pub context : Context
  pub status : JobStatus
  pub queued_at : ℕ
  pub updated_at : ℕ
  pub available_at : ℕ
  pub max_attempts : ℕ
  pub claim_id : Option String
  pub worker_id : Option String
  pub lease_expires_at : Option ℕ
  pub final_run_status : Option RunStatus
  pub error_code : Option String

-- `validate_claim_and_time`
claim_ok : JobStatus → JobRecord → Bool
claim_ok claimed r = is_some r.claim_id && (is_some r.worker_id && is_some r.lease_expires_at)
claim_ok _ r = is_none r.claim_id && (is_none r.worker_id && is_none r.lease_expires_at)

final_ok : JobStatus → JobRecord → Bool
final_ok completed r = is_some r.final_run_status
final_ok _ r = true

-- The constraints on the fields.
fields_ok : JobRecord → Bool
fields_ok r =
    is_safe_id r.run_id
    && (is_safe_id r.pipeline_id
        && (is_safe_id r.pipeline_version && (leb 1 r.max_attempts && leb r.max_attempts 20)))

unfoldable pub record_ok : JobRecord → Bool
unfolding claim_ok final_ok fields_ok
record_ok r = fields_ok r && (claim_ok r.status r && final_ok r.status r)

pub data JobFile : Type 0 where
  unreadable : JobFile
  job : JobRecord → JobFile

pub data JobError : Type 0 where
  job_conflict job_integrity job_claim payload_rejected value_error : JobError
  run_error : RunError → JobError

unfoldable pub job_path : String → String
job_path run_id = "job-" +++ run_id +++ ".json"

module _ (rules : PayloadRules) (sha256 : Json → String) where
  load_record : String → JobRecord → Result JobError JobRecord
  load_record path r =
      if not (record_ok r)
      then err job_integrity
      else if not (path == job_path r.run_id)
      then err job_integrity
      else if not (sha256 r.payload == r.request_sha256)
      then err job_integrity
      else if not (r.context.run_id == r.run_id)
      then err job_integrity
      else if not (payload_ok rules r.payload)
      then err payload_rejected
      else ok r

  -- `_load_path`; a file that is gone is an invalid record too.
  unfoldable pub load_path : String → Option JobFile → Result JobError JobRecord
  unfolding load_record
  load_path path none = err job_integrity
  load_path path (some unreadable) = err job_integrity
  load_path path (some (job r)) = load_record path r

abbrev pub expired : Option ℕ → ℕ → Bool
expired none now = false
expired (some lease) now = leb lease now

available_in : JobStatus → JobRecord → ℕ → Bool
available_in queued r now = leb r.available_at now
available_in claimed r now = expired r.lease_expires_at now
available_in _ r now = false

-- `_is_available`; a loaded record that is claimed has a lease.
unfoldable pub is_available : JobRecord → ℕ → Bool
unfolding available_in
is_available r now = available_in r.status r now
