-- ===== src/Jobs.antt =====
-- The local job queue and its worker (src/axcalib/runtime/worker.py) over the executor. Each call is
-- one step of one process; what other processes do to the queue while a pipeline runs is an
-- argument of `execute_claim`. Times are in microseconds.
mod Payload
mod Record
pub mod Claims
pub mod Finish
pub mod Enqueue
mod Examples
unfoldable pub use Payload.*
unfoldable pub use Record.*
use axcalib.Prelude.{
  text_leb, ℕ, zero, suc, ◌+◌, ◌-◌, ◌*◌, ◌^◌, min, String, Bool, true, false, not, ◌&&◌, ◌||◌,
  Option, none, some, List, [], ◌∷◌, ◌++◌, leb, ltb, is_some, ◌==◌, nat_eq, nat_beq, string_eq,
  option_eq, if◌then◌else◌,
}
use axcalib.Exec.{Result, ok, err, Exec}
use axcalib.Files.{Files, write}
use axcalib.Identifiers.{is_safe_id}
use axcalib.Pipelines.{Context, same_identity, Registry}
use axcalib.Executor
use axcalib.Executor.{
  RunStatus, running, retryable_failure, RunError, run_conflict, run_integrity, invalid_record,
  run_not_found, invalid_run_id, raised, RunFiles, Digests, ExecutionResult, execute, inspect,
}

-- `names` lists the files `job-*.json` of the root.
pub record Queue : Type 0 where
  pub names : List String
  pub files : Files JobFile
  pub runs : RunFiles

-- The limits of a queue, and SHA-256 and the rules of the payload.
pub record Settings : Type 0 where
  pub max_attempts : ℕ
  pub retry_backoff : ℕ
  pub digests : Digests Json
  pub rules : PayloadRules

abbrev second : ℕ
second = 1000000

abbrev is_claimed : JobStatus → Bool
is_claimed claimed = true
is_claimed _ = false

abbrev is_running : RunStatus → Bool
is_running running = true
is_running _ = false

abbrev is_object : Json → Bool
is_object (object _) = true
is_object _ = false

abbrev is_retryable : RunStatus → Bool
is_retryable retryable_failure = true
is_retryable _ = false

-- `type(error).__name__`; a record of a run that cannot be read raises pydantic's error.
abbrev error_name : RunError → String
error_name run_conflict = "PipelineRunConflictError"
error_name run_integrity = "PipelineRunIntegrityError"
error_name invalid_record = "ValidationError"
error_name run_not_found = "FileNotFoundError"
error_name invalid_run_id = "ValidationError"
error_name (raised x) = x.class_name

-- The order of the candidates: the oldest first, then by run and file.
before : JobRecord × String → JobRecord × String → Bool
before (r, p) (t, q) =
    if not (nat_beq r.queued_at t.queued_at)
    then ltb r.queued_at t.queued_at
    else if not (r.run_id == t.run_id)
    then text_leb r.run_id t.run_id
    else text_leb p q

insert : JobRecord × String → List (JobRecord × String) → List (JobRecord × String)
unfolding before
insert x [] = x ∷ []
insert x (y ∷ rest) = let later = insert x rest in if before x y then x ∷ y ∷ rest else y ∷ later

sorted : List (JobRecord × String) → List (JobRecord × String)
unfolding insert
sorted [] = []
sorted (x ∷ rest) = insert x (sorted rest)

module _ (s : Settings) where
  pub load_at : String → Queue → Result JobError JobRecord
  load_at path q = load_path s.rules s.digests.request_sha256 path (q.files path)

  put : String → JobRecord → Queue → Queue
  put path r q = record q { files = write path (job r) q.files }

  -- The claim of a job (`claim_next`, the update of the record).
  unfoldable pub claim_record : String → String → ℕ → ℕ → JobRecord → JobRecord
  claim_record claim_id worker_id lease now r = record r {
    status = claimed;
    updated_at = now;
    claim_id = some claim_id;
    worker_id = some worker_id;
    lease_expires_at = some (now + lease);
    final_run_status = none;
  }

  -- The first loop: the available jobs with their files.
  add_candidate :
      ℕ
      → String
      → JobRecord
      → Result JobError (List (JobRecord × String))
      → Result JobError (List (JobRecord × String))
  add_candidate now path r (err x) = err x
  add_candidate now path r (ok rest) = ok (if is_available r now then (r, path) ∷ rest else rest)

  candidates : ℕ → Queue → List String → Result JobError (List (JobRecord × String))
  unfolding add_candidate load_at
  candidates now q [] = ok []
  candidates now q (path ∷ names) = elim (load_at path q) [
    | err x ↦ err x
    | ok r ↦ add_candidate now path r (candidates now q names)
  ]

  -- The second loop: the first candidate that is still available is claimed.
  claim_first :
      String → String → ℕ → ℕ → List (JobRecord × String) → Exec Queue JobError (Option JobRecord)
  unfolding load_at put
  claim_first claim_id worker_id lease now [] q = (ok none, q)
  claim_first claim_id worker_id lease now ((_, path) ∷ rest) q =
      let later = claim_first claim_id worker_id lease now rest q in
      elim (load_at path q) [
        | err x ↦ (err x, q)
        | ok r ↦ if not (is_available r now) then later else (
          ok (some (claim_record claim_id worker_id lease now r)),
          put path (claim_record claim_id worker_id lease now r) q,
        )
      ]

  claim_found :
      String
      → String
      → ℕ
      → ℕ
      → Result JobError (List (JobRecord × String))
      → Exec Queue JobError (Option JobRecord)
  claim_found claim_id worker_id lease now (err x) q = (err x, q)
  claim_found claim_id worker_id lease now (ok found) q =
      claim_first claim_id worker_id lease now (sorted found) q

  -- `claim_next`; `claim_id` is the new claim's identity.
  unfoldable pub claim_next : String → String → ℕ → ℕ → Exec Queue JobError (Option JobRecord)
  unfolding candidates claim_first claim_found sorted
  claim_next claim_id worker_id lease now q =
      if not (is_safe_id worker_id)
      then (err value_error, q)
      else if not (leb second lease && leb lease (86400 * second))
      then (err value_error, q)
      else claim_found claim_id worker_id lease now (candidates now q q.names) q

  -- The worker of `claim` holds the record's claim at the time `now`.
  unfoldable pub owns : JobRecord → String → ℕ → JobRecord → Bool
  owns claim worker_id now current =
      is_claimed current.status
      && (current.claim_id == claim.claim_id
          && (current.worker_id == some worker_id
              && (is_some current.lease_expires_at && not (expired current.lease_expires_at now))))

  -- The record has the claim that was executed.
  unfoldable pub same_claim : JobRecord → String → JobRecord → Bool
  same_claim current worker_id latest =
      latest.claim_id == current.claim_id && latest.worker_id == some worker_id

  abbrev pub released : JobRecord → JobStatus → ℕ → ℕ → Option RunStatus → Option String → JobRecord
  released r status now available final_status error_code = record r {
    status = status;
    updated_at = now;
    available_at = available;
    claim_id = none;
    worker_id = none;
    lease_expires_at = none;
    final_run_status = final_status;
    error_code = error_code;
  }

  -- `min(retry_backoff_seconds * (2 ** max(result.attempt - 1, 0)), 300.0)`
  unfoldable pub delay : ℕ → ℕ
  delay attempt = min (s.retry_backoff * 2 ^ (attempt - 1)) (300 * second)

  -- The record behind an execution.
  unfoldable pub finished_record : ExecutionResult → ℕ → JobRecord → JobRecord
  finished_record result now latest =
      if is_retryable result.status
      then (if ltb result.attempt latest.max_attempts
          then released latest queued now (now + delay result.attempt) none result.error_code
          else released latest exhausted now now none result.error_code)
      else released latest completed now now (some result.status) result.error_code

  -- `_block_claim`; its own failure takes the place of the one that it is called for.
  block_latest :
      JobRecord
      → String
      → ℕ
      → String
      → JobError
      → Result JobError JobRecord
      → Queue
      → JobError × Queue
  block_latest claim worker_id now error_code raised_ (err x) q = (x, q)
  block_latest claim worker_id now error_code raised_ (ok latest) q =
      if not (same_claim claim worker_id latest) then (raised_, q) else (
        raised_,
        put (job_path claim.run_id)
            (released latest blocked now now latest.final_run_status (some error_code)) q,
      )

  finish_latest :
      JobRecord
      → String
      → ℕ
      → ExecutionResult
      → Result JobError JobRecord
      → Exec Queue JobError ExecutionResult
  finish_latest current worker_id now result (err x) q = (err x, q)
  finish_latest current worker_id now result (ok latest) q =
      if not (same_claim current worker_id latest)
      then (err job_claim, q)
      else (ok result, put (job_path current.run_id) (finished_record result now latest) q)

  -- Behind the execution of a claimed job, whose file is `job_path current.run_id` (`_load_path` has
  -- checked it).
  conclude :
      JobRecord → String → ℕ → Result RunError ExecutionResult → Exec Queue JobError ExecutionResult
  unfolding load_at block_latest finish_latest put
  conclude current worker_id now (err x) q =
      let (raised_, q') =
        block_latest current worker_id now (error_name x) (run_error x)
          (load_at (job_path current.run_id) q) q in
      (err raised_, q')
  conclude current worker_id now (ok result) q =
      finish_latest current worker_id now result (load_at (job_path current.run_id) q) q

  module _ (at : Executor.Moment → ℕ) (registry : Registry Json RunFiles) where
    -- The execution of a loaded job; `others` changes the queue's files meanwhile.
    run_claimed :
        (Files JobFile → Files JobFile)
        → JobRecord
        → String
        → ℕ
        → Exec Queue JobError ExecutionResult
    run_claimed others current worker_id finished_at q =
        let (result, runs) =
          execute s.digests at registry current.pipeline_id current.pipeline_version current.payload
            current.context q.runs in
        conclude current worker_id finished_at result
          (record q { files = others q.files; runs = runs })

    begin_claim :
        (Files JobFile → Files JobFile)
        → JobRecord
        → String
        → ℕ
        → ℕ
        → Result JobError JobRecord
        → Exec Queue JobError ExecutionResult
    unfolding run_claimed
    begin_claim others claim worker_id now finished_at (err x) q = (err x, q)
    begin_claim others claim worker_id now finished_at (ok current) q =
        if not (owns claim worker_id now current)
        then (err job_claim, q)
        else run_claimed others current worker_id finished_at q

    -- `execute_claim`, started at `now`
    unfoldable pub execute_claim :
        (Files JobFile → Files JobFile)
        → JobRecord
        → String
        → ℕ
        → ℕ
        → Exec Queue JobError ExecutionResult
    unfolding begin_claim conclude load_at
    execute_claim others claim worker_id now finished_at q =
        if not (is_safe_id worker_id)
        then (err value_error, q)
        else begin_claim others claim worker_id now finished_at (load_at (job_path claim.run_id) q)
            q
