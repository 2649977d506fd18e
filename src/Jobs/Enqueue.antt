-- ===== src/Jobs/Enqueue.antt =====
-- `enqueue` of src/axcalib/runtime/worker.py.
use axcalib.Prelude.{
  ℕ, String, ◌≡◌, refl, arith, Bool, true, not, ◌&&◌, none, some, ◌∷◌, leb, is_some, ◌==◌, nat_eq,
  string_eq, if◌then◌else◌,
}
use axcalib.Exec.{Result, ok, err, Exec}
use axcalib.Files.{write}
use axcalib.Pipelines.{Context, Exception, same_identity, Binding, Registry, binding}
use axcalib.Executor
use axcalib.Executor.{
  RunStatus, running, is_terminal, RunError, raised, invalid_run_id, RunFiles, ExecutionResult,
  inspect,
}
use axcalib.Identifiers.{is_safe_id}
use axcalib.Jobs.{
  Json, payload_ok, JobRecord, JobStatus, queued, completed, exhausted, job, JobError, job_conflict,
  payload_rejected, run_error, Queue, Settings, job_path, load_at, is_retryable, is_running,
  is_object,
}

module _ (s : Settings) (registry : Registry Json RunFiles) where
  -- `_verify_identity`
  is_same_job : String → String → String → Context → JobRecord → Bool
  is_same_job id version sha256 c r =
      r.pipeline_id == id
      && (r.pipeline_version == version
          && (r.request_sha256 == sha256
              && (same_identity r.context c && r.max_attempts == s.max_attempts)))

  inspected : Result RunError ExecutionResult → Result JobError ExecutionResult
  inspected (err x) = err (run_error x)
  inspected (ok result) = ok (record result { replayed = true })

  -- A job whose file exists: the run as it stands, for the same job.
  enqueued_again :
      String
      → String
      → String
      → Context
      → Result JobError JobRecord
      → Exec Queue JobError ExecutionResult
  unfolding is_same_job inspected
  enqueued_again id version sha256 c (err x) q = (err x, q)
  enqueued_again id version sha256 c (ok existing) q =
      if not (is_same_job id version sha256 c existing)
      then (err job_conflict, q)
      else (inspected (inspect s.digests c.run_id q.runs), q)

  -- The status of a new job, by its prepared run.
  first_status : ExecutionResult → JobStatus
  first_status prepared =
      if is_terminal prepared.status
      then completed
      else if is_retryable prepared.status && leb s.max_attempts prepared.attempt
      then exhausted
      else queued

  candidate : ℕ → String → String → Json → Context → ExecutionResult → JobRecord
  unfolding first_status
  candidate now id version payload c prepared = record {
    run_id = c.run_id;
    pipeline_id = id;
    pipeline_version = version;
    request_sha256 = s.digests.request_sha256 payload;
    payload = payload;
    context = c;
    status = first_status prepared;
    queued_at = now;
    updated_at = now;
    available_at = now;
    max_attempts = s.max_attempts;
    claim_id = none;
    worker_id = none;
    lease_expires_at = none;
    final_run_status = if is_terminal prepared.status then some prepared.status else none;
    error_code = prepared.error_code;
  }

  enqueued_new :
      ℕ
      → String
      → String
      → Json
      → Context
      → Result RunError ExecutionResult
      → Exec Queue JobError ExecutionResult
  unfolding candidate
  enqueued_new now id version payload c (err x) q = (err (run_error x), q)
  enqueued_new now id version payload c (ok prepared) q =
      if is_running prepared.status then (err job_conflict, q) else (
        ok prepared,
        record q {
          names = job_path c.run_id ∷ q.names;
          files =
              write (job_path c.run_id) (job (candidate now id version payload c prepared)) q.files;
        },
      )

  -- Behind the validation of the request.
  enqueue_valid :
      ℕ → String → String → Context → Result Exception Json → Exec Queue JobError ExecutionResult
  unfolding enqueued_again enqueued_new
  enqueue_valid now id version c (err x) q = (err (run_error (raised x)), q)
  enqueue_valid now id version c (ok payload) q =
      if not (is_object payload)
      then (err payload_rejected, q)
      else if not (payload_ok s.rules payload)
      then (err payload_rejected, q)
      else if not (is_safe_id c.run_id)
      then (err (run_error invalid_run_id), q)
      else if is_some (q.files (job_path c.run_id))
      then enqueued_again id version (s.digests.request_sha256 payload) c
          (load_at s (job_path c.run_id) q) q
      else let (prepared, runs) =
          Executor.prepare s.digests now registry id version payload c q.runs in
        enqueued_new now id version payload c prepared (record q { runs = runs })

  validated : Result Exception (Binding Json RunFiles) → Json → Result Exception Json
  validated (err x) payload = err x
  validated (ok b) payload = b.validate_request payload

  -- `enqueue` at the time `now`; no other process makes the job's file between the two looks for it.
  unfoldable pub enqueue :
      ℕ → String → String → Json → Context → Exec Queue JobError ExecutionResult
  unfolding enqueue_valid validated
  enqueue now id version payload c q =
      enqueue_valid now id version c (validated (binding id version registry) payload) q

  enqueued_again-queue :
      (id version sha256 : String) (c : Context) (r : Result JobError JobRecord) (q : Queue)
      → (enqueued_again id version sha256 c r q).1 ≡ q
  unfolding enqueued_again
  enqueued_again-queue id version sha256 c (err x) q = refl
  enqueued_again-queue id version sha256 c (ok r) q = ground arith

  enqueue_valid-queue :
      (now : ℕ) (id version : String) (c : Context) (r : Result Exception Json) (q : Queue)
      → is_some (q.files (job_path c.run_id)) ≡ true
      → (enqueue_valid now id version c r q).1 ≡ q
  unfolding enqueue_valid
  enqueue_valid-queue now id version c (err x) q h = refl
  enqueue_valid-queue now id version c (ok payload) q h = ground (
    arith,
    enqueued_again-queue id version (s.digests.request_sha256 payload) c
        (load_at s (job_path c.run_id) q) q,
  )

  -- Where the run has a job file, `enqueue` writes nothing, neither in the queue nor in the runs.
  pub enqueue-existing :
      (now : ℕ) (id version : String) (payload : Json) (c : Context) (q : Queue)
      → is_some (q.files (job_path c.run_id)) ≡ true
      → (enqueue now id version payload c q).1 ≡ q
  unfolding enqueue
  enqueue-existing now id version payload c q h =
      enqueue_valid-queue now id version c (validated (binding id version registry) payload) q h
