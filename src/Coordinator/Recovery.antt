-- ===== src/Coordinator/Recovery.antt =====
-- `reconcile` on a workspace where a part of a plan is done (src/axcalib/runtime/transactions.py).
pub mod Finish
use axcalib.Prelude.{
  ℕ, String, ◌≡◌, sym, ap, ◌⊎◌, Bool, true, Option, some, List, [], ◌∷◌, ◌++◌, arith,
}
use axcalib.Exec.{Result, ok, err, is_ok, Exec}
use axcalib.Failure.{Failure, injected, class_name}
use axcalib.Files.{Files}
use axcalib.Identifiers.{is_safe_id}
use axcalib.Dossier.{Dossier, DossierValue}
use axcalib.Audit.{AuditEvent, append_once}
use axcalib.Plans.{Plan}
use axcalib.Journal
use axcalib.Journal.{
  Status, applying, reconcile_required, Line, Journal, prepare, append_status, reason_ok,
}
use axcalib.Coordinator.Commit.{first, first_files, first-Held, prepare-first, latest-first}
use axcalib.Coordinator.{
  Workspace, Hashing, Moment, at_prepare, at_failure, Injector, Boundary, verify_requirements,
  ensure_dossier, on_journals, set_status, close, perform, run_prepared, execute_plan, settle,
  reconcile_open, reconcile_loaded, ReconciliationResult,
}
use axcalib.Coordinator.Steps.Ensure.{IsValidPlan}

-- The class name of each failure that the injector raises fits a reason code.
abbrev pub ShortNames : Injector → Type 0
ShortNames injector =
    (c : Boundary) (name : String) → injector c ≡ some name → reason_ok (some name) ≡ true

module _ (h : Hashing) (p : Plan) (valid : IsValidPlan p) (w : Workspace) (t₀ : ℕ) (d : Dossier)
    (b written : Bool) (required : verify_requirements w.artifacts p.required_artifacts ≡ ok tt)
    (ensured : (ensure_dossier h.dossier_digest t₀ p w.dossiers).0 ≡ ok (d, b))
    (appended : (append_once p.audit_event w.audit).0 ≡ ok written) where
  abbrev ensured_at : ℕ → Files Dossier
  ensured_at t = (ensure_dossier h.dossier_digest t p w.dossiers).1

  abbrev audited : List AuditEvent
  audited = (append_once p.audit_event w.audit).1

  -- How far the plan got: the dossier written or not, the audit event written or not.
  record Progress (v : Workspace) : Type 0 where
    artifacts : v.artifacts ≡ w.artifacts
    dossiers : (v.dossiers ≡ w.dossiers) ⊎ ((t : ℕ) × (v.dossiers ≡ ensured_at t))
    audit : (v.audit ≡ w.audit) ⊎ (v.audit ≡ audited)

  -- How the body of an execution ends: all of it, or cut short by the injector with a part done.
  data Ends (v : Workspace) (r : Result Failure Dossier) (v' : Workspace) : Type 0 where
    all_done :
        (d' : Dossier) (u : ℕ)
        → r ≡ ok d'
        → v' ≡ record v { dossiers = ensured_at u; audit = audited }
        → Ends v r v'
    cut_short :
        (name : String)
        → reason_ok (some name) ≡ true
        → r ≡ err (injected name)
        → v'.journals ≡ v.journals
        → Progress v'
        → Ends v r v'

  module _ (at : Moment → ℕ) (injector : Injector) (journals : Files (List Line)) where
    abbrev started : Workspace
    started = record w { journals = journals }
