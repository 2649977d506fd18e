-- ===== src/Jobs/Finish.antt =====
-- What an execution of a claim leaves in the queue (`execute_claim` of
-- src/axcalib/runtime/worker.py).
use axcalib.Prelude.{
  ℕ, ◌+◌, ◌*◌, ◌≤◌, String, ◌≡◌, refl, subst, true, false, arith, string_eq, option_eq, Bool-cases,
  inl, inr,
}
use axcalib.Exec.{Result, ok, err}
use axcalib.Files.{Files, write, write_self}
use axcalib.Pipelines.{Registry}
use axcalib.Executor
use axcalib.Executor.{ExecutionResult, RunError, RunStatus, RunFiles, execute}
use axcalib.Jobs.{
  Json, JobRecord, JobFile, job, JobError, Queue, Settings, job_path, load_path, load_at, put,
  finished_record, delay, same_claim, conclude, finish_latest, run_claimed, begin_claim,
  execute_claim, is_claimed, second, owns,
}
use axcalib.Jobs.Claims.{load_path-parts, load_path-finished_record}

module _ (s : Settings) where
  -- A delay before a retry is at most 300 seconds.
  finished_record-available :
      (result : ExecutionResult) (now : ℕ) (r : JobRecord)
      → (now ≤ (finished_record s result now r).available_at)
        × ((finished_record s result now r).available_at ≤ now + 300 * second)
  unfolding finished_record delay
  finished_record-available result now r = (ground arith, ground arith)

  -- What the queue is behind an execution that returns: `files` are the job files before its write.
  pub record IsReleased (current : JobRecord) (files : Files JobFile) (worker_id : String) (now : ℕ)
      (result : ExecutionResult) (q' : Queue) : Type 0 where
    pub latest : JobRecord
    pub loaded :
        load_path s.rules s.digests.request_sha256
          (job_path current.run_id)
          (files (job_path current.run_id))
        ≡ ok latest
    pub owned : same_claim s current worker_id latest ≡ true
    pub written :
        q'.files ≡ write (job_path current.run_id) (job (finished_record s result now latest)) files
    pub reads_back :
        load_at s (job_path current.run_id) q' ≡ ok (finished_record s result now latest)
    pub unclaimed : is_claimed (finished_record s result now latest).status ≡ false
    pub not_before : now ≤ (finished_record s result now latest).available_at
    pub not_late : (finished_record s result now latest).available_at ≤ now + 300 * second

  finished_record-unclaimed :
      (result : ExecutionResult) (now : ℕ) (r : JobRecord)
      → is_claimed (finished_record s result now r).status ≡ false
  unfolding finished_record
  finished_record-unclaimed result now r = ground arith

  module _ (current : JobRecord) (worker_id : String) (now : ℕ) where
    Answer : Files JobFile → Result JobError ExecutionResult × Queue → Type 0
    Answer files (ok result, q') = IsReleased current files worker_id now result q'
    Answer files (err x, q') = Unit

    finish_latest-Answer :
        (result : ExecutionResult) (q : Queue) (latest : Result JobError JobRecord)
        → load_at s (job_path current.run_id) q ≡ latest
        → Answer q.files (finish_latest s current worker_id now result latest q)
    unfolding finish_latest Answer load_at put
    finish_latest-Answer result q (err x) e = tt
    finish_latest-Answer result q (ok latest) e =
        elim (Bool-cases (same_claim s current worker_id latest)) [
          | inr o ↦ rw o tt
          | inl o ↦
              let (stored, good) =
                load_path-parts s (job_path current.run_id) (q.files (job_path current.run_id))
                  latest e in
              let (early, late) = finished_record-available result now latest in
              rw o (record {
                latest = latest;
                loaded = e;
                owned = o;
                written = refl;
                reads_back =
                    rw
                      (write_self (job_path current.run_id)
                        (job (finished_record s result now latest)) q.files)
                      (load_path-finished_record s (job_path current.run_id) result now latest
                        good);
                unclaimed = finished_record-unclaimed result now latest;
                not_before = early;
                not_late = late;
              })
        ]

    conclude-Answer :
        (result : Result RunError ExecutionResult) (q : Queue)
        → Answer q.files (conclude s current worker_id now result q)
    unfolding conclude Answer
    conclude-Answer (err x) q = tt
    conclude-Answer (ok result) q =
        finish_latest-Answer result q (load_at s (job_path current.run_id) q) refl

  -- The claim that was executed, the run's result, and the queue behind it.
  pub record IsExecuted (claim : JobRecord) (worker_id : String) (now finished_at : ℕ)
      (others : Files JobFile → Files JobFile) (q : Queue) (result : ExecutionResult) (q' : Queue)
      : Type 0 where
    pub current : JobRecord
    pub loaded : load_at s (job_path claim.run_id) q ≡ ok current
    pub owned : owns s claim worker_id now current ≡ true
    pub released : IsReleased current (others q.files) worker_id finished_at result q'

  module _ (at : Executor.Moment → ℕ) (registry : Registry Json RunFiles)
      (others : Files JobFile → Files JobFile) (claim : JobRecord) (worker_id : String)
      (now finished_at : ℕ) where
    ended :
        (q : Queue) (v : Result JobError ExecutionResult × Queue) (result : ExecutionResult)
        (q' : Queue) (current : JobRecord)
        → load_at s (job_path claim.run_id) q ≡ ok current
        → owns s claim worker_id now current ≡ true
        → Answer current worker_id finished_at (others q.files) v
        → v ≡ (ok result, q')
        → IsExecuted claim worker_id now finished_at others q result q'
    unfolding Answer
    ended q v result q' current e o answer h = record {
      current = current;
      loaded = e;
      owned = o;
      released = subst (Answer current worker_id finished_at (others q.files)) h answer;
    }

    begin_claim-IsExecuted :
        (current : Result JobError JobRecord) (q : Queue) (result : ExecutionResult) (q' : Queue)
        → load_at s (job_path claim.run_id) q ≡ current
        → begin_claim s at registry others claim worker_id now finished_at current q
          ≡ (ok result, q')
        → IsExecuted claim worker_id now finished_at others q result q'
    unfolding begin_claim run_claimed
    begin_claim-IsExecuted (err x) q result q' e h = absurd (cc h)
    begin_claim-IsExecuted (ok current) q result q' e h =
        elim (Bool-cases (owns s claim worker_id now current)) [
          | inr o ↦ absurd (cc (rw o at h))
          | inl o ↦
              ended q _ result q' current e o (conclude-Answer current worker_id finished_at _ _)
                (rw o at h)
        ]

    -- When `execute_claim` returns a result, whatever other processes did to the queue meanwhile: the
    -- worker held the claim at the start, the job's file still had that claim at the end, and this
    -- call changed only that file. Its record is not claimed any more, is available again at
    -- the end or at most 300 seconds later, and is one that the queue reads back.
    pub execute_claim-IsExecuted :
        (q : Queue) (result : ExecutionResult) (q' : Queue)
        → execute_claim s at registry others claim worker_id now finished_at q ≡ (ok result, q')
        → IsExecuted claim worker_id now finished_at others q result q'
    unfolding execute_claim
    execute_claim-IsExecuted q result q' h =
        begin_claim-IsExecuted (load_at s (job_path claim.run_id) q) q result q' refl (ground arith)
