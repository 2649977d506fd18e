-- ===== src/Coordinator.antt =====
-- The recoverable transactions of a project (`ProjectTransactionCoordinator` of
-- src/axcalib/runtime/transactions.py). The workspace holds the journals, the dossiers, the audit
-- log and the artifacts that a plan may require. Readings of the clock are arguments, one for each
-- place that reads it; the injector of failures is a function of the boundary.
mod Steps
pub mod Commit
pub mod Recovery
mod Examples
unfoldable pub use Steps.*
use Prim.Native.String as NativeString
use axcalib.Prelude.{
  ℕ, ◌+◌, String, Bool, true, false, not, Option, none, some, List, [], ◌∷◌, ◌++◌, ◌==◌, nat_eq,
  string_eq, if◌then◌else◌,
}
use axcalib.Exec.{Result, ok, err, Exec, ◌>>=◌, ◌>>◌, pure, raise, lift}
use axcalib.Failure.{Failure, transaction_blocked, transaction_conflict, injected, class_name}
use axcalib.Files.{Files}
use axcalib.Dossier
use axcalib.Dossier.{Dossier, DossierValue, dump}
use axcalib.Audit.{AuditEvent, append_once}
use axcalib.Plans.{Requirement, Plan, create, update, validate_plan}
use axcalib.Journal
use axcalib.Journal.{
  Status, applying, reconcile_required, reconciling, blocked, committed, Payload, Line, Journal,
  latest_is, prepare, append_status,
}

pub record Workspace : Type 0 where
  pub journals : Files (List Line)
  pub dossiers : Files Dossier
  pub audit : List AuditEvent
  pub artifacts : String → Artifact

-- SHA-256 of the canonical JSON of a journal event and of a dossier, and the journal's file name.
pub record Hashing : Type 0 where
  pub event_digest : Payload → String
  pub dossier_digest : DossierValue → String
  pub path_name : String → String

-- Where the coordinator reads the clock, and where it calls the failure injector.
pub data Moment : Type 0 where
  at_prepare at_start at_save at_failure at_end : Moment

pub data Boundary : Type 0 where
  after_prepare after_dossier after_audit : Boundary

abbrev pub Injector : Type 0
Injector = Boundary → Option String

abbrev pub no_failure : Injector
no_failure b = none

-- Actions on one part of the workspace.
on_journals : {A : Type 0} → Exec (Files (List Line)) Failure A → Exec Workspace Failure A
on_journals m w = let (r, files) = m w.journals in (r, record w { journals = files })

on_dossiers : {A : Type 0} → Exec (Files Dossier) Failure A → Exec Workspace Failure A
on_dossiers m w = let (r, files) = m w.dossiers in (r, record w { dossiers = files })

on_audit : {A : Type 0} → Exec (List AuditEvent) Failure A → Exec Workspace Failure A
on_audit m w = let (r, log) = m w.audit in (r, record w { audit = log })

-- `_inject`
inject : Injector → Boundary → Exec Workspace Failure (Unit {0})
inject injector b w = elim (injector b) [ none ↦ (ok tt, w) | some name ↦ (err (injected name), w) ]

-- What a reconciliation reports; the reason is that of a block.
pub data Outcome : Type 0 where
  reconciled already_committed : Outcome
  stopped : String → Outcome

pub record ReconciliationResult : Type 0 where
  pub outcome : Outcome
  pub recovered_dossier : Bool
  pub recovered_audit : Bool

-- `f"txn-{audit_event.event_id}"`
abbrev transaction_id_of : AuditEvent → String
transaction_id_of event = NativeString.◌++◌ "txn-" event.event_id

module _ (h : Hashing) (at : Moment → ℕ) where
  set_status : String → Moment → Status → Option String → Exec Workspace Failure Journal
  set_status transaction_id m status reason =
      on_journals (append_status h.event_digest h.path_name transaction_id (at m) status reason)

  -- The body of the `try` of `_execute`.
  apply_plan : Injector → Plan → Exec Workspace Failure Dossier
  unfolding inject
  apply_plan injector p = do
    inject injector after_prepare
    (λ w. (verify_requirements w.artifacts p.required_artifacts, w))
    done ← on_dossiers (ensure_dossier h.dossier_digest (at at_save) p)
    inject injector after_dossier
    _ ← on_audit (append_once p.audit_event)
    inject injector after_audit
    pure done.0

  -- The `except` of `_execute`: the failure is noted, if that is possible, and raised again; else
  -- the transaction is committed.
  close : Plan → Result Failure Dossier → Exec Workspace Failure Dossier
  close p (err x) w =
      let (_, w') =
        set_status p.transaction_id at_failure reconcile_required (some (class_name x)) w in
      (err x, w')
  close p (ok d) w = (do _ ← set_status p.transaction_id at_end committed none; pure d) w

  perform : Injector → Plan → Exec Workspace Failure Dossier
  perform injector p w = let (r, w') = apply_plan injector p w in close p r w'

  run_prepared : Injector → Plan → Journal → Exec Workspace Failure Dossier
  run_prepared injector p j w =
      if latest_is committed j.events
      then (Dossier.load p.project_id w.dossiers, w)
      else (do _ ← set_status p.transaction_id at_start applying none; perform injector p) w

  -- `_execute`
  unfoldable pub execute_plan : Injector → Plan → Exec Workspace Failure Dossier
  unfolding on_journals on_dossiers on_audit inject set_status apply_plan close perform run_prepared
  execute_plan injector p = do
    j ← on_journals (prepare h.event_digest h.path_name p (at at_prepare))
    run_prepared injector p j

  -- `execute_create`
  unfoldable pub execute_create :
      Injector
      → Dossier
      → AuditEvent
      → String
      → String
      → List Requirement
      → Exec Workspace Failure Dossier
  unfolding execute_plan
  execute_create injector d event command idempotency_key required = do
    p ← lift (
        validate_plan (record {
          transaction_id = transaction_id_of event;
          operation = create;
          project_id = d.project_id;
          command = command;
          idempotency_key = idempotency_key;
          base_revision = 0;
          target_revision = 1;
          base_dossier_sha256 = none;
          candidate_dossier = d;
          audit_event = event;
          required_artifacts = required;
        }))
    execute_plan injector p

  update_base :
      Injector
      → Dossier
      → ℕ
      → AuditEvent
      → String
      → String
      → List Requirement
      → Dossier
      → Exec Workspace Failure Dossier
  update_base injector d expected event command idempotency_key required base w =
      if not (base.revision == expected)
      then (err transaction_conflict, w)
      else (do
        p ← lift (
            validate_plan (record {
              transaction_id = transaction_id_of event;
              operation = update;
              project_id = d.project_id;
              command = command;
              idempotency_key = idempotency_key;
              base_revision = expected;
              target_revision = expected + 1;
              base_dossier_sha256 = some (h.dossier_digest (dump base));
              candidate_dossier = d;
              audit_event = event;
              required_artifacts = required;
            }))
        execute_plan injector p)
          w

  -- `execute_update`
  unfoldable pub execute_update :
      Injector
      → Dossier
      → ℕ
      → AuditEvent
      → String
      → String
      → List Requirement
      → Exec Workspace Failure Dossier
  unfolding update_base
  execute_update injector d expected event command idempotency_key required = do
    base ← (λ w. (Dossier.load d.project_id w.dossiers, w))
    update_base injector d expected event command idempotency_key required base

  -- The body of the `try` of `reconcile`: what it recovered.
  recover_parts : Plan → Exec Workspace Failure (Bool × Bool)
  recover_parts p = do
    (λ w. (verify_requirements w.artifacts p.required_artifacts, w))
    done ← on_dossiers (ensure_dossier h.dossier_digest (at at_save) p)
    written ← on_audit (append_once p.audit_event)
    pure (done.1, written)

  block : String → String → Exec Workspace Failure ReconciliationResult
  block transaction_id reason = do
    _ ← set_status transaction_id at_failure blocked (some reason)
    pure (record { outcome = stopped reason; recovered_dossier = false; recovered_audit = false })

  -- Blocks and conflicts end in a blocked journal; every other failure is raised.
  settle : String → Result Failure (Bool × Bool) → Exec Workspace Failure ReconciliationResult
  settle transaction_id (ok (dossier, audit)) = do
    _ ← set_status transaction_id at_end committed none
    pure (record { outcome = reconciled; recovered_dossier = dossier; recovered_audit = audit })
  settle transaction_id (err (transaction_blocked reason)) = block transaction_id reason
  settle transaction_id (err transaction_conflict) = block transaction_id "revision_conflict"
  settle transaction_id (err x) = raise x

  reconcile_open : String → Plan → Exec Workspace Failure ReconciliationResult
  reconcile_open transaction_id p w = let (r, w') = recover_parts p w in settle transaction_id r w'

  reconcile_loaded : String → Journal → Exec Workspace Failure ReconciliationResult
  reconcile_loaded transaction_id j w =
      if latest_is committed j.events
      then (
        ok (record {
          outcome = already_committed;
          recovered_dossier = false;
          recovered_audit = false;
        }),
        w,
      )
      else (do
        _ ← set_status transaction_id at_start reconciling none
        reconcile_open transaction_id j.plan)
          w

  -- `reconcile`
  unfoldable pub reconcile : String → Exec Workspace Failure ReconciliationResult
  unfolding on_journals on_dossiers on_audit set_status recover_parts block settle reconcile_open
      reconcile_loaded
  reconcile transaction_id = do
    j ← (λ w. (Journal.load h.event_digest h.path_name transaction_id w.journals, w))
    reconcile_loaded transaction_id j
