-- ===== src/Coordinator/Recovery/Finish.antt =====
-- An execution with any failures, and the reconciliation behind it
-- (src/axcalib/runtime/transactions.py).
use axcalib.Prelude.{ℕ, ◌≡◌, Bool, true, false, none, List, [], ◌∷◌}
use axcalib.Exec.{Result, ok, is_ok}
use axcalib.Failure.{Failure}
use axcalib.Files.{Files}
use axcalib.Identifiers.{is_safe_id}
use axcalib.Dossier.{Dossier}
use axcalib.Audit.{append_once}
use axcalib.Plans.{Plan}
use axcalib.Journal.{applying, committed, JournalEvent, Line, latest_is}
use axcalib.Coordinator.Commit.{
  Held, events_with, files_with, load-Held, first, first_files, first-Held,
}
use axcalib.Coordinator.{
  Workspace, Hashing, Moment, at_prepare, at_start, Injector, verify_requirements, ensure_dossier,
  reconcile, already_committed,
}
use axcalib.Coordinator.Steps.Ensure.{IsValidPlan}
use axcalib.Coordinator.Recovery.{Progress}

module _ (h : Hashing) (p : Plan) (valid : IsValidPlan p) (w : Workspace) (t₀ : ℕ) (d : Dossier)
    (b written : Bool) (required : verify_requirements w.artifacts p.required_artifacts ≡ ok tt)
    (ensured : (ensure_dossier h.dossier_digest t₀ p w.dossiers).0 ≡ ok (d, b))
    (appended : (append_once p.audit_event w.audit).0 ≡ ok written) where
  -- All of the plan is done, as on the workspace `w` at some time, and its journal is committed.
  pub record IsFinished (v : Workspace) : Type 0 where
    pub events : List JournalEvent
    pub held : Held h p v.journals events
    pub committed_last : latest_is committed events ≡ true
    pub saved_at : ℕ
    pub dossiers : v.dossiers ≡ (ensure_dossier h.dossier_digest saved_at p w.dossiers).1
    pub audit : v.audit ≡ (append_once p.audit_event w.audit).1

  -- What an execution leaves.
  data Left (r : Result Failure Dossier) (v : Workspace) : Type 0 where
    finished : is_ok r ≡ true → IsFinished v → Left r v
    open_journal :
        (events : List JournalEvent)
        → is_ok r ≡ false
        → Held h p v.journals events
        → latest_is committed events ≡ false
        → Progress h p valid w t₀ d b written required ensured appended v
        → Left r v

  module _ (at : Moment → ℕ) (injector : Injector) (safe : is_safe_id p.transaction_id ≡ true)
      (fresh : w.journals (h.path_name p.transaction_id) ≡ none) where
    abbrev f₁ : Files (List Line)
    f₁ = first_files h p w.journals (at at_prepare) safe fresh

    abbrev e₁ : List JournalEvent
    e₁ = first h p w.journals (at at_prepare) safe fresh ∷ []

    abbrev h₁ : Held h p f₁ e₁
    h₁ = first-Held h p w.journals (at at_prepare) safe fresh

    abbrev f₂ : Files (List Line)
    f₂ = files_with h p f₁ e₁ h₁ (at at_start) applying none

    abbrev e₂ : List JournalEvent
    e₂ = events_with h p f₁ e₁ h₁ (at at_start) applying none

  -- When all of a plan is done and its journal is committed, a reconciliation reports that
  -- and writes nothing.
  pub reconcile-IsFinished :
      (at : Moment → ℕ) (v : Workspace)
      → IsFinished v
      → reconcile h at p.transaction_id v ≡ (
        ok (record {
          outcome = already_committed;
          recovered_dossier = false;
          recovered_audit = false;
        }),
        v,
      )
  unfolding reconcile
  reconcile-IsFinished at v f = rw (load-Held h p v.journals f.events f.held) (rw f.committed_last)
