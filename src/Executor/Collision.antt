-- ===== src/Executor/Collision.antt =====
-- The files of different runs: a run ID may end like the suffix of another run's file
-- (`_record_path`, `_result_path` and `_cancel_path` of src/axcalib/runtime/execution.py).
use text.Mathlib.TextLemmas.{append_assoc}
use axcalib.Prelude.{
  ◌+++◌, ℕ, String, ◌≡◌, refl, sym, ap, Bool, true, false, Option, none, some, arith, is_some, ◌||◌,
}
use axcalib.Exec.{is_ok}
use axcalib.Files.{write_self}
use axcalib.Pipelines.{cancellation_requested, Context}
use axcalib.Executor.{
  RunFiles, RunFile, RunRecord, Digests, record_path, cancel_path, result_path, prepare_run,
  prepare_found, prepared_record, as_record, is_cancelled,
}

cancel_path-record_path : (a : String) → cancel_path a ≡ record_path (a +++ ".cancel")
unfolding cancel_path record_path
cancel_path-record_path a = ap (λ s. "run-" +++ s) (sym (append_assoc a ".cancel" ".json"))

pub result_path-record_path : (a : String) → result_path a ≡ record_path (a +++ ".result")
unfolding result_path record_path
result_path-record_path a = ap (λ s. "run-" +++ s) (sym (append_assoc a ".result" ".json"))

module _ {Request : Type 0} (g : Digests Request) where
  prepared_record-files :
      (id version sha256 : String) (c : Context) (r : RunRecord) (files : RunFiles)
      → (prepared_record g id version sha256 c r files).1 ≡ files
  unfolding prepared_record
  prepared_record-files id version sha256 c r files = ground arith

  has_record :
      (now : ℕ) (id version sha256 : String) (c : Context) (files : RunFiles) (f : Option RunFile)
      → files (record_path c.run_id) ≡ f
      → is_ok (prepare_found g now id version sha256 c (as_record f) files).0 ≡ true
      → is_some
          ((prepare_found g now id version sha256 c (as_record f) files).1 (record_path c.run_id))
        ≡ true
  unfolding prepare_found as_record
  has_record now id version sha256 c files none e h = rw (write_self (record_path c.run_id) _ files)
  has_record now id version sha256 c files (some (RunFile.run_record r)) e h =
      rw (prepared_record-files id version sha256 c r files, e)
  has_record now id version sha256 c files (some (RunFile.run_result o)) e h = absurd (cc h)
  has_record now id version sha256 c files (some (RunFile.cancel_request a)) e h = absurd (cc h)

  or_true : (b : Bool) → (b || true) ≡ true
  or_true true = refl
  or_true false = refl

  -- Once `_prepare` has succeeded for the run `<id>.cancel`, the run `<id>` counts as
  -- cancelled at every time.
  pub prepare-is_cancelled :
      (now now' : ℕ) (id version sha256 : String) (c c' : Context) (files : RunFiles)
      → c'.run_id ≡ c.run_id +++ ".cancel"
      → is_ok (prepare_run g now id version sha256 c' files).0 ≡ true
      → is_cancelled g now' c (prepare_run g now id version sha256 c' files).1 ≡ true
  unfolding prepare_run is_cancelled
  prepare-is_cancelled now now' id version sha256 c c' files e h =
      rw
        (
          cancel_path-record_path c.run_id,
          ap record_path (sym e),
          has_record now id version sha256 c' files _ refl h,
        )
        (or_true (cancellation_requested c now'))
