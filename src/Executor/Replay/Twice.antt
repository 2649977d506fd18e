-- ===== src/Executor/Replay/Twice.antt =====
-- A call that is repeated after its run has ended.
use axcalib.Prelude.{
  ℕ, String, ◌≡◌, refl, ap, Bool, true, false, Option, none, some, eq_refl, string_eq, Bool-cases,
  inl, inr,
}
use axcalib.Exec.{Result, ok, err}
use axcalib.Files.{write_self}
use axcalib.Identifiers.{is_safe_id}
use axcalib.Pipelines.{Context, same_identity_refl, Exception, Output, Binding, Registry, binding}
use axcalib.Executor.{
  Moment, at_prepare, at_check, at_start, RunRecord, RunFile, RunFiles, run_record, run_conflict,
  cancelled, running, is_terminal, RunError, ExecutionResult, Digests, record_path, prepare_run,
  as_record, prepare_found, new_record, is_cancelled, result_from_record, returned,
  execute_prepared, execute_locked, execute, envelope,
}
use axcalib.Executor.Replay.{
  is_same_run, prepared_record-is_same_run, IsOf, IsKept, update_run-IsKept, run_bound-IsKept,
  execute-is_terminal,
}

module _ {Request : Type 0} (g : Digests Request) (id version : String) (payload : Request)
    (c : Context) where
  data Prepared : Result RunError RunRecord × RunFiles → Type 0 where
    refused : (x : RunError) (files : RunFiles) → Prepared (err x, files)
    kept :
        (r : RunRecord) (files : RunFiles)
        → IsKept g id version payload c (r, files)
        → Prepared (ok r, files)

  new_record-IsOf :
      (now : ℕ)
      → IsOf g id version payload c (new_record g now id version (g.request_sha256 payload) c)
  unfolding new_record is_same_run
  new_record-IsOf now = record {
    same =
        rw (eq_refl id, eq_refl version, eq_refl (g.request_sha256 payload), same_identity_refl c);
    run_id = refl;
  }

  -- A checkpoint that stands in the run's file names the run.
  abbrev pub NamesRun : RunFiles → Type 0
  NamesRun files =
      (r : RunRecord)
      → files (record_path c.run_id) ≡ some (run_record r)
      → r.context.run_id ≡ c.run_id

  prepare_found-Prepared :
      (now : ℕ) (files : RunFiles) (f : Option RunFile)
      → NamesRun files
      → files (record_path c.run_id) ≡ f
      → Prepared (prepare_found g now id version (g.request_sha256 payload) c (as_record f) files)
  unfolding prepare_found as_record
  prepare_found-Prepared now files none names e =
      kept _ _
        (record { of_run = new_record-IsOf now; found = write_self (record_path c.run_id) _ files })
  prepare_found-Prepared now files (some (RunFile.run_record r)) names e =
      rw (prepared_record-is_same_run g id version payload c r files)
        (elim (Bool-cases (is_same_run g id version payload c r)) [
          | inl s ↦ rw s (
              kept r files (record { of_run = record { same = s; run_id = names r e }; found = e }))
          | inr s ↦ rw s (refused run_conflict files)
        ])
  prepare_found-Prepared now files (some (RunFile.run_result o)) names e = refused _ files
  prepare_found-Prepared now files (some (RunFile.cancel_request a)) names e = refused _ files

  data Answered : Result RunError ExecutionResult × RunFiles → Type 0 where
    declined : (x : RunError) (files : RunFiles) → Answered (err x, files)
    answered :
        (replayed : Bool) (v : RunRecord × RunFiles)
        → IsKept g id version payload c v
        → Answered (returned g replayed v)

  execute_prepared-Answered :
      (at : Moment → ℕ) (bound : Result Exception (Binding Request RunFiles))
      (v : Result RunError RunRecord × RunFiles)
      → Prepared v
      → Answered (execute_prepared g at bound payload c v.0 v.1)
  unfolding execute_prepared
  execute_prepared-Answered at bound v (refused x files) = declined x files
  execute_prepared-Answered at bound v (kept r files k) = elim (Bool-cases (is_terminal r.status)) [
    | inl e ↦ rw e (answered true (r, files) k)
    | inr e ↦ rw e (elim (Bool-cases (is_cancelled g (at at_check) c files)) [
      | inl s ↦ rw s (
          answered false _ (
            update_run-IsKept g id version payload c (at at_check) r cancelled _ _ _ _ files
              k.of_run))
      | inr s ↦ rw s (
          answered false _ (
            run_bound-IsKept g id version payload c at bound _
              (update_run-IsKept g id version payload c (at at_start) r running _ _ _ _ files
                k.of_run).of_run))
    ])
  ]

  execute-Answered :
      (at : Moment → ℕ) (registry : Registry Request RunFiles) (files : RunFiles)
      → is_safe_id c.run_id ≡ true
      → NamesRun files
      → Answered (execute g at registry id version payload c files)
  unfolding execute execute_locked prepare_run
  execute-Answered at registry files safe names = rw safe (
      execute_prepared-Answered at (binding id version registry) _
        (prepare_found-Prepared (at at_prepare) files _ names refl))

  envelope-replayed :
      (r : RunRecord) (replayed : Bool) (o : Result RunError (Option Output))
      (result : ExecutionResult)
      → envelope g r replayed o ≡ ok result
      → (r.status ≡ result.status) × (envelope g r true o ≡ ok (record result { replayed = true }))
  unfolding envelope
  envelope-replayed r replayed (err x) result h = absurd (cc h)
  envelope-replayed r replayed (ok o) result h = (
    ap (λ v. elim v [ ok x ↦ x.status | err x ↦ r.status ]) h,
    ap (λ v. elim v [ ok x ↦ ok (record x { replayed = true }) | err x ↦ err x ]) h,
  )

  Answered-again :
      (at : Moment → ℕ) (registry : Registry Request RunFiles) (result : ExecutionResult)
      (v : Result RunError ExecutionResult × RunFiles)
      → is_safe_id c.run_id ≡ true
      → v.0 ≡ ok result
      → is_terminal result.status ≡ true
      → Answered v
      → execute g at registry id version payload c v.1
        ≡ (ok (record result { replayed = true }), v.1)
  unfolding returned result_from_record
  Answered-again at registry result v safe h done (declined x files) = absurd (cc h)
  Answered-again at registry result v safe h done (answered replayed (r, files) k) =
      let (same_status, again) = envelope-replayed r replayed _ result h in
      rw
        (execute-is_terminal g id version payload c at registry r files safe k.found
          (rw same_status done))
        (rw (k.of_run.same, again))

  -- When a call with a safe run ID returns a status that is final, the same call again, at
  -- any later time and with any registry, changes no file and returns the same envelope,
  -- marked as replayed. The checkpoint that stands before the first call, if there is one,
  -- names the run whose file it is.
  pub execute-execute :
      (at later : Moment → ℕ) (registry registry' : Registry Request RunFiles) (files : RunFiles)
      (result : ExecutionResult)
      → is_safe_id c.run_id ≡ true
      → NamesRun files
      → (execute g at registry id version payload c files).0 ≡ ok result
      → is_terminal result.status ≡ true
      → execute g later registry' id version payload c
          (execute g at registry id version payload c files).1
        ≡ (
          ok (record result { replayed = true }),
          (execute g at registry id version payload c files).1,
        )
  execute-execute at later registry registry' files result safe names h done =
      Answered-again later registry' result _ safe h done
        (execute-Answered at registry files safe names)
