-- ===== src/Coordinator/Examples.antt =====
-- A transaction that creates a project, cut short behind the dossier and reconciled
-- (src/axcalib/runtime/transactions.py).
use axcalib.Prelude.{ℕ, ◌≤◌, String, ◌≡◌, refl, true, false, none, some, []}
use axcalib.Exec.{ok}
use axcalib.Files.{Files}
use axcalib.Identifiers.{is_safe_id}
use axcalib.Dossier.{Dossier, DossierValue, create}
use axcalib.Audit.{append_once}
use axcalib.Plans.{lists_id, validate_plan}
use axcalib.Journal.Examples.{candidate, event_1, plan_1, digest, path_name, no_files}
use axcalib.Coordinator.{
  Workspace, Hashing, Moment, at_prepare, at_start, at_save, at_failure, at_end, Injector,
  after_prepare, after_dossier, after_audit, missing, verify_requirements, ensure_dossier,
}
use axcalib.Coordinator.Steps.Ensure.{
  IsValidPlan, validate_plan-IsValidPlan, ensure_dossier_twice, ensure_dossier_target,
}
use axcalib.Coordinator.Recovery.Finish.{IsFinished}

abbrev dossier_digest : DossierValue → String
dossier_digest v = v.body

abbrev hashing : Hashing
hashing = record { event_digest = digest; dossier_digest = dossier_digest; path_name = path_name }

abbrev no_dossiers : Files Dossier
no_dossiers name = none

abbrev workspace : Workspace
workspace = record {
  journals = no_files;
  dossiers = no_dossiers;
  audit = [];
  artifacts = λ path. missing;
}

abbrev clock : Moment → ℕ
clock at_prepare = 10
clock at_start = 11
clock at_save = 12
clock at_failure = 13
clock at_end = 14

-- The process fails between the dossier and the audit log.
abbrev crash : Injector
crash after_prepare = none
crash after_dossier = some "RuntimeError"
crash after_audit = none

valid : IsValidPlan plan_1
unfolding validate_plan is_safe_id
valid = validate_plan-IsValidPlan plan_1 plan_1 refl

required_1 : verify_requirements workspace.artifacts plan_1.required_artifacts ≡ ok tt
unfolding verify_requirements
required_1 = refl

ensured_1 : (ensure_dossier dossier_digest 5 plan_1 no_dossiers).0 ≡ ok (candidate, true)
unfolding ensure_dossier create
ensured_1 = refl

appended_1 : (append_once event_1 []).0 ≡ ok true
unfolding append_once
appended_1 = refl

ensure_dossier_twice_example :
    ensure_dossier dossier_digest 6 plan_1 (ensure_dossier dossier_digest 5 plan_1 no_dossiers).1
    ≡ (ok (candidate, false), (ensure_dossier dossier_digest 5 plan_1 no_dossiers).1)
ensure_dossier_twice_example =
    ensure_dossier_twice dossier_digest 5 6 plan_1 no_dossiers candidate true valid ensured_1

ensure_dossier_target_example :
    ((ensure_dossier dossier_digest 5 plan_1 no_dossiers).1 "p1" ≡ some candidate)
    × (lists_id "e1" candidate.audit_event_ids ≡ true)
    × (1 ≤ candidate.revision)
ensure_dossier_target_example =
    ensure_dossier_target dossier_digest 5 plan_1 no_dossiers candidate true valid ensured_1

abbrev Finished : Workspace → Type 0
Finished v =
    IsFinished hashing plan_1 valid workspace 5 candidate true true required_1 ensured_1 appended_1
      v
