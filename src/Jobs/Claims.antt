-- ===== src/Jobs/Claims.antt =====
-- What `claim_next` of src/axcalib/runtime/worker.py hands out. `model_copy` validates nothing.
use axcalib.Prelude.{
  ℕ, ◌+◌, ◌<◌, String, ◌≡◌, refl, ap, subst, true, false, Option, none, some, List, [], ◌∷◌, arith,
  string_eq, Bool-cases, inl, inr,
}
use axcalib.Exec.{Result, ok, err, Result-cases}
use axcalib.Files.{write, write_self}
use axcalib.Executor.{ExecutionResult}
use axcalib.Jobs.{
  JobRecord, JobFile, job, JobError, Queue, Settings, record_ok, load_path, is_available, load_at,
  put, claim_record, candidates, claim_first, claim_found, claim_next, finished_record, sorted,
}

module _ (s : Settings) where
  pub load_path-parts :
      (path : String) (f : Option JobFile) (r : JobRecord)
      → load_path s.rules s.digests.request_sha256 path f ≡ ok r
      → (f ≡ some (job r)) × (load_path s.rules s.digests.request_sha256 path (some (job r)) ≡ ok r)
  unfolding load_path
  load_path-parts path none r h = absurd (cc h)
  load_path-parts path (some JobFile.unreadable) r h = absurd (cc h)
  load_path-parts path (some (job x)) r h =
      let same : x ≡ r = ground arith in
      (
        ap (λ y. some (job y)) same,
        subst (λ y. load_path s.rules s.digests.request_sha256 path (some (job y)) ≡ ok r) same h,
      )

  -- A record that was read, with a claim put in, is read back as it is.
  load_path-claim_record :
      (path claim_id worker_id : String) (lease now : ℕ) (r : JobRecord)
      → load_path s.rules s.digests.request_sha256 path (some (job r)) ≡ ok r
      → load_path s.rules s.digests.request_sha256 path
          (some (job (claim_record s claim_id worker_id lease now r)))
        ≡ ok (claim_record s claim_id worker_id lease now r)
  unfolding load_path record_ok claim_record
  load_path-claim_record path claim_id worker_id lease now r h = ground arith

  pub load_path-finished_record :
      (path : String) (result : ExecutionResult) (now : ℕ) (r : JobRecord)
      → load_path s.rules s.digests.request_sha256 path (some (job r)) ≡ ok r
      → load_path s.rules s.digests.request_sha256 path
          (some (job (finished_record s result now r)))
        ≡ ok (finished_record s result now r)
  unfolding load_path record_ok finished_record
  load_path-finished_record path result now r h = ground arith

  -- What a claim shows of the queue before and behind it.
  pub record IsClaimed (claim_id worker_id : String) (lease now : ℕ) (q : Queue) (r : JobRecord)
      (q' : Queue) : Type 0 where
    pub path : String
    pub found : JobRecord
    pub loaded : load_at s path q ≡ ok found
    pub available : is_available found now ≡ true
    pub is_claim : r ≡ claim_record s claim_id worker_id lease now found
    pub written : q' ≡ record q { files = write path (job r) q.files }
    pub reads_back : load_at s path q' ≡ ok r
    pub held : (t : ℕ) → t < now + lease → is_available r t ≡ false

  module _ (claim_id worker_id : String) (lease now : ℕ) where
    claim_record-held :
        (r : JobRecord) (t : ℕ)
        → t < now + lease
        → is_available (claim_record s claim_id worker_id lease now r) t ≡ false
    unfolding is_available claim_record
    claim_record-held r t h = ground arith

    put-IsClaimed :
        (path : String) (found : JobRecord) (q : Queue)
        → load_at s path q ≡ ok found
        → is_available found now ≡ true
        → IsClaimed claim_id worker_id lease now q
            (claim_record s claim_id worker_id lease now found)
            (put s path (claim_record s claim_id worker_id lease now found) q)
    unfolding put load_at
    put-IsClaimed path found q loaded available =
        let (stored, ok_record) = load_path-parts path (q.files path) found loaded in
        record {
          path = path;
          found = found;
          loaded = loaded;
          available = available;
          is_claim = refl;
          written = refl;
          reads_back =
              rw (write_self path (job (claim_record s claim_id worker_id lease now found)) q.files)
                (load_path-claim_record path claim_id worker_id lease now found ok_record);
          held = claim_record-held found;
        }

    Answer : Queue → Result JobError (Option JobRecord) × Queue → Type 0
    Answer q (ok (some r), q') = IsClaimed claim_id worker_id lease now q r q'
    Answer q _ = Unit

    claim_first-IsClaimed :
        (l : List (JobRecord × String)) (q q' : Queue) (r : JobRecord)
        → claim_first s claim_id worker_id lease now l q ≡ (ok (some r), q')
        → IsClaimed claim_id worker_id lease now q r q'
    unfolding claim_first Answer
    claim_first-IsClaimed [] q q' r h = absurd (cc h)
    claim_first-IsClaimed ((x, path) ∷ rest) q q' r h = elim (Result-cases (load_at s path q)) [
      | inl (x, e) ↦ absurd (cc (rw (e, claim_first) at h))
      | inr (found, e) ↦ elim (Bool-cases (is_available found now)) [
        | inl a ↦
            subst (Answer q) (rw a at (rw (e, claim_first) at h)) (put-IsClaimed path found q e a)
        | inr a ↦ claim_first-IsClaimed rest q q' r (rw a at (rw (e, claim_first) at h))
      ]
    ]

    claim_found-IsClaimed :
        (l : Result JobError (List (JobRecord × String))) (q q' : Queue) (r : JobRecord)
        → claim_found s claim_id worker_id lease now l q ≡ (ok (some r), q')
        → IsClaimed claim_id worker_id lease now q r q'
    unfolding claim_found
    claim_found-IsClaimed (err x) q q' r h = absurd (cc h)
    claim_found-IsClaimed (ok l) q q' r h = claim_first-IsClaimed (sorted l) q q' r h

  -- A job that `claim_next` hands out was read from the queue and available; its file then holds the
  -- claim with the worker and the lease, no other file is changed, the queue reads the claim back,
  -- and until the lease ends the job is not available again.
  pub claim_next-IsClaimed :
      (claim_id worker_id : String) (lease now : ℕ) (q q' : Queue) (r : JobRecord)
      → claim_next s claim_id worker_id lease now q ≡ (ok (some r), q')
      → IsClaimed claim_id worker_id lease now q r q'
  unfolding claim_next
  claim_next-IsClaimed claim_id worker_id lease now q q' r h =
      claim_found-IsClaimed claim_id worker_id lease now (candidates s now q q.names) q q' r
        (ground arith)
