-- ===== src/Coordinator/Steps.antt =====
-- The steps of a project transaction (`_verify_requirements`, `_verify_target` and `_ensure_dossier`
-- of src/axcalib/runtime/transactions.py) on the required artifacts and on the dossiers.
pub mod Ensure
use axcalib.Prelude.{
  ℕ, ◌+◌, String, Bool, true, false, not, ◌&&◌, ◌||◌, Option, none, some, List, [], ◌∷◌, ◌++◌, leb,
  ◌==◌, nat_eq, string_eq, option_eq, is_some, has_text, if◌then◌else◌,
}
use axcalib.Exec.{Result, ok, err, Exec, ◌>>=◌, ◌>>◌, pure, raise, reject_if, lift}
use axcalib.Failure.{Failure, transaction_blocked, transaction_conflict, class_name}
use axcalib.Files.{Files}
use axcalib.Dossier
use axcalib.Dossier.{Dossier, DossierValue, dump, semantic}
use axcalib.Audit.{AuditEvent, append_once}
use axcalib.Plans.{
  ArtifactKind, report_json, report_markdown, notification_outbox, Requirement, Operation, Plan,
  create, update, lists_id, validate_plan,
}
use axcalib.Journal
use axcalib.Journal.{
  Status, applying, reconcile_required, reconciling, blocked, committed, Payload, Line, Journal,
  latest_is, prepare, append_status,
}

-- The parsed content of an artifact: no JSON text, JSON that is no object, or an object with the two
-- fields that are compared (a value that is no text is as an absent one).
pub data Content : Type 0 where
  unreadable no_object : Content
  object : Option String → Option String → Content

-- What a relative path of the workspace leads to.
pub data Artifact : Type 0 where
  outside missing : Artifact
  file : String → Content → Artifact

-- `f"missing_{requirement.kind}"` and the like.
abbrev missing_kind : ArtifactKind → String
missing_kind report_json = "missing_report_json"
missing_kind report_markdown = "missing_report_markdown"
missing_kind notification_outbox = "missing_notification_outbox"

abbrev changed_kind : ArtifactKind → String
changed_kind report_json = "changed_report_json"
changed_kind report_markdown = "changed_report_markdown"
changed_kind notification_outbox = "changed_notification_outbox"

abbrev invalid_kind : ArtifactKind → String
invalid_kind report_json = "invalid_report_json"
invalid_kind report_markdown = "invalid_report_markdown"
invalid_kind notification_outbox = "invalid_notification_outbox"

verify_content : Requirement → Content → Result Failure (Unit {0})
verify_content r (object report_id delivery_status) =
    if is_some r.expected_report_id && not (report_id == r.expected_report_id)
    then err (transaction_blocked "report_id_mismatch")
    else if is_some r.expected_delivery_status
        && not (delivery_status == r.expected_delivery_status)
    then err (transaction_blocked "notification_not_recorded")
    else ok tt
verify_content r _ = err (transaction_blocked (invalid_kind r.kind))

verify_artifact : Requirement → Artifact → Result Failure (Unit {0})
unfolding verify_content
verify_artifact r outside = err (transaction_blocked "artifact_path_escape")
verify_artifact r missing = err (transaction_blocked (missing_kind r.kind))
verify_artifact r (file sha256 content) =
    if not (sha256 == r.sha256)
    then err (transaction_blocked (changed_kind r.kind))
    else if has_text r.expected_report_id || has_text r.expected_delivery_status
    then verify_content r content
    else ok tt

-- `_verify_requirements`
unfoldable pub verify_requirements :
    (String → Artifact) → List Requirement → Result Failure (Unit {0})
unfolding verify_artifact
verify_requirements artifacts [] = ok tt
verify_requirements artifacts (r ∷ rest) = elim (verify_artifact r (artifacts r.relative_path)) [
  | err x ↦ err x
  | ok _ ↦ verify_requirements artifacts rest
]

module _ (digest : DossierValue → String) where
  -- `_verify_target`
  unfoldable pub verify_target : Dossier → Plan → Result Failure (Unit {0})
  verify_target d p =
      if not (d.revision == p.target_revision)
      then err (transaction_blocked "dossier_target_revision_mismatch")
      else if not (lists_id p.audit_event.event_id d.audit_event_ids)
      then err (transaction_blocked "dossier_target_missing_event")
      else if not (
          digest (semantic d d.revision) == digest (semantic p.candidate_dossier p.target_revision))
      then err (transaction_blocked "dossier_target_hash_mismatch")
      else ok tt

  abbrev unchanged : Dossier → Result Failure (Unit {0}) → Result Failure (Dossier × Bool)
  unchanged d (err x) = err x
  unchanged d (ok _) = ok (d, false)

  -- A dossier that is there already: only a target is accepted.
  existing_target : Plan → Result Failure Dossier → Result Failure (Dossier × Bool)
  existing_target p (err x) = err x
  existing_target p (ok current) = unchanged current (verify_target current p)

  saved_target :
      Plan → Exec (Files Dossier) Failure Dossier → Exec (Files Dossier) Failure (Dossier × Bool)
  saved_target p save = do saved ← save; lift (verify_target saved p); pure (saved, true)

  update_current : ℕ → Plan → Result Failure Dossier → Exec (Files Dossier) Failure (Dossier × Bool)
  update_current now p (err x) files = (err x, files)
  update_current now p (ok current) files =
      if current.revision == p.base_revision
      then (if not (some (digest (dump current)) == p.base_dossier_sha256)
          then (err (transaction_blocked "base_dossier_hash_mismatch"), files)
          else saved_target p (Dossier.save now p.candidate_dossier p.base_revision) files)
      else if leb p.target_revision current.revision
      then (if not (lists_id p.audit_event.event_id current.audit_event_ids)
          then (err (transaction_blocked "target_revision_missing_event"), files)
          else if current.revision == p.target_revision
          then (unchanged current (verify_target current p), files)
          else (ok (current, false), files))
      else (err (transaction_blocked "dossier_revision_conflict"), files)

  ensure_operation : Operation → ℕ → Plan → Exec (Files Dossier) Failure (Dossier × Bool)
  ensure_operation create now p files =
      if not (is_some (files p.project_id))
      then (do Dossier.create p.candidate_dossier; pure (p.candidate_dossier, true)) files
      else (existing_target p (Dossier.load p.project_id files), files)
  ensure_operation update now p files = update_current now p (Dossier.load p.project_id files) files

  -- `_ensure_dossier`: the dossier at its target, and whether this call wrote it.
  unfoldable pub ensure_dossier : ℕ → Plan → Exec (Files Dossier) Failure (Dossier × Bool)
  unfolding verify_target existing_target saved_target update_current ensure_operation
      Dossier.create Dossier.load Dossier.save
  ensure_dossier now p = ensure_operation p.operation now p
