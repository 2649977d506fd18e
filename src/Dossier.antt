-- ===== src/Dossier.antt =====
-- Dossiers and their repository (src/axcalib/schemas/domain.py, src/axcalib/dossier/repository.py).
-- A dossier is its identity, its revision and the audit events that it names; `body` stands for
-- the other fields, as their canonical JSON. A file is read back as the dossier that was written:
-- YAML, schema migration and field validation are not modelled.
use axcalib.Prelude.{
  ℕ, ◌+◌, String, ◌≡◌, ◌↔◌, Bool, true, not, ◌&&◌, Option, none, some, List, arith, eq_iff,
  list_beq_iff, Eq, ◌==◌, string_eq, nat_eq, list_eq, option_eq, is_some, if◌then◌else◌,
}
use axcalib.Exec.{Result, ok, err, Exec}
use axcalib.Failure.{
  Failure, dossier_error, dossier_already_exists, dossier_not_found, revision_conflict,
}
use axcalib.Files.{Files, write}

pub record Dossier : Type 0 where
  pub project_id : String
  pub revision : ℕ
  pub updated_at : ℕ
  pub audit_event_ids : List String
  pub body : String

abbrev pub dossier_beq : Dossier → Dossier → Bool
dossier_beq a b =
    a.project_id == b.project_id
    && (a.revision == b.revision
        && (a.updated_at == b.updated_at
            && (a.audit_event_ids == b.audit_event_ids && a.body == b.body)))

pub dossier_beq_iff : (a b : Dossier) → (dossier_beq a b ≡ true) ↔ (a ≡ b)
dossier_beq_iff a b = (
  (λ h. ground (
    arith,
    eq_iff a.project_id b.project_id,
    list_beq_iff string_eq a.audit_event_ids b.audit_event_ids,
    eq_iff a.body b.body,
  )),
  (λ h. ground (
    arith,
    eq_iff a.project_id b.project_id,
    list_beq_iff string_eq a.audit_event_ids b.audit_event_ids,
    eq_iff a.body b.body,
  )),
)

instance abbrev pub dossier_eq : Eq Dossier
dossier_eq = record { beq = dossier_beq; beq_iff = dossier_beq_iff }

-- `model_dump(mode="json")`; the time of the last write can be taken out.
pub record DossierValue : Type 0 where
  pub project_id : String
  pub revision : ℕ
  pub updated_at : Option ℕ
  pub audit_event_ids : List String
  pub body : String

abbrev pub dump : Dossier → DossierValue
dump d = record {
  project_id = d.project_id;
  revision = d.revision;
  updated_at = some d.updated_at;
  audit_event_ids = d.audit_event_ids;
  body = d.body;
}

-- `_target_semantic_sha256` before hashing: the revision replaced, `updated_at` popped.
abbrev pub semantic : Dossier → ℕ → DossierValue
semantic d revision = record (dump d) { revision = revision; updated_at = none }

-- `DossierRepository.load`
load_found : String → Option Dossier → Result Failure Dossier
load_found project_id none = err dossier_not_found
load_found project_id (some d) =
    if not (d.project_id == project_id) then err dossier_error else ok d

unfoldable pub load : String → Files Dossier → Result Failure Dossier
unfolding load_found
load project_id files = load_found project_id (files project_id)

-- `DossierRepository.create`
unfoldable pub create : Dossier → Exec (Files Dossier) Failure (Unit {0})
create d files =
    if is_some (files d.project_id)
    then (err dossier_already_exists, files)
    else (ok tt, write d.project_id d files)

-- The body of `save` behind the load: the revision is compared and then raised by one.
save_over : ℕ → Dossier → ℕ → Result Failure Dossier → Exec (Files Dossier) Failure Dossier
save_over now d expected_revision (err x) files = (err x, files)
save_over now d expected_revision (ok current) files =
    if not (current.revision == expected_revision)
    then (err revision_conflict, files)
    else let updated = record d { revision = expected_revision + 1; updated_at = now } in
      (ok updated, write d.project_id updated files)

-- `DossierRepository.save` at the time `now`
unfoldable pub save : ℕ → Dossier → ℕ → Exec (Files Dossier) Failure Dossier
unfolding save_over load
save now d expected_revision files =
    save_over now d expected_revision (load d.project_id files) files
