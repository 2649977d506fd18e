-- ===== src/Plans.antt =====
-- The plan of a project transaction (src/axcalib/runtime/transactions.py): the artifacts that it
-- requires, its fields and `validate_plan_integrity`.
use axcalib.Prelude.{
  ℕ, ◌+◌, String, ◌≡◌, ◌↔◌, Bool, true, not, ◌&&◌, ◌||◌, Option, List, arith, eq_iff, any, Eq, ◌==◌,
  nat_beq, nat_eq, string_eq, option_eq, option_beq_iff, list_eq, list_beq_iff, is_some, is_none,
  if◌then◌else◌,
}
use axcalib.Exec.{Result, ok, err}
use axcalib.Failure.{Failure, validation_error}
use axcalib.Identifiers.{is_safe_id}
use axcalib.Dossier.{Dossier, dossier_eq, dossier_beq_iff}
use axcalib.Audit.{AuditEvent, audit_event_eq, audit_event_beq_iff}

pub data ArtifactKind : Type 0 where
  report_json report_markdown notification_outbox : ArtifactKind

abbrev pub kind_name : ArtifactKind → String
kind_name report_json = "report_json"
kind_name report_markdown = "report_markdown"
kind_name notification_outbox = "notification_outbox"

abbrev kind_rank : ArtifactKind → ℕ
kind_rank report_json = 0
kind_rank report_markdown = 1
kind_rank notification_outbox = 2

kind_rank_iff : (a b : ArtifactKind) → (nat_beq (kind_rank a) (kind_rank b) ≡ true) ↔ (a ≡ b)
kind_rank_iff a b = ground arith

pub record Requirement : Type 0 where
  pub kind : ArtifactKind
  pub relative_path : String
  pub sha256 : String
  pub expected_report_id : Option String
  pub expected_delivery_status : Option String

abbrev requirement_beq : Requirement → Requirement → Bool
requirement_beq a b =
    nat_beq (kind_rank a.kind) (kind_rank b.kind)
    && (a.relative_path == b.relative_path
        && (a.sha256 == b.sha256
            && (a.expected_report_id == b.expected_report_id
                && a.expected_delivery_status == b.expected_delivery_status)))

requirement_beq_iff : (a b : Requirement) → (requirement_beq a b ≡ true) ↔ (a ≡ b)
requirement_beq_iff a b = (
  (λ h. ground (
    arith,
    kind_rank_iff a.kind b.kind,
    eq_iff a.relative_path b.relative_path,
    eq_iff a.sha256 b.sha256,
    option_beq_iff string_eq a.expected_report_id b.expected_report_id,
    option_beq_iff string_eq a.expected_delivery_status b.expected_delivery_status,
  )),
  (λ h. ground (
    arith,
    kind_rank_iff a.kind b.kind,
    eq_iff a.relative_path b.relative_path,
    eq_iff a.sha256 b.sha256,
    option_beq_iff string_eq a.expected_report_id b.expected_report_id,
    option_beq_iff string_eq a.expected_delivery_status b.expected_delivery_status,
  )),
)

instance abbrev requirement_eq : Eq Requirement
requirement_eq = record { beq = requirement_beq; beq_iff = requirement_beq_iff }

pub data Operation : Type 0 where
  create update : Operation

abbrev operation_rank : Operation → ℕ
operation_rank create = 0
operation_rank update = 1

pub record Plan : Type 0 where
  pub transaction_id : String
  pub operation : Operation
  pub project_id : String
  pub command : String
  pub idempotency_key : String
  pub base_revision : ℕ
  pub target_revision : ℕ
  pub base_dossier_sha256 : Option String
  pub candidate_dossier : Dossier
  pub audit_event : AuditEvent
  pub required_artifacts : List Requirement

-- Two plans have the same fields.
pub plan_beq : Plan → Plan → Bool
plan_beq a b =
    a.transaction_id == b.transaction_id
    && (nat_beq (operation_rank a.operation) (operation_rank b.operation)
        && (a.project_id == b.project_id
            && (a.command == b.command
                && (a.idempotency_key == b.idempotency_key
                    && (a.base_revision == b.base_revision
                        && (a.target_revision == b.target_revision
                            && (a.base_dossier_sha256 == b.base_dossier_sha256
                                && (a.candidate_dossier == b.candidate_dossier
                                    && (a.audit_event == b.audit_event
                                        && a.required_artifacts == b.required_artifacts)))))))))

operation_rank_iff :
    (a b : Operation) → (nat_beq (operation_rank a) (operation_rank b) ≡ true) ↔ (a ≡ b)
operation_rank_iff a b = ground arith

plan_beq_sound : (a b : Plan) → plan_beq a b ≡ true → a ≡ b
unfolding plan_beq
plan_beq_sound a b h = ground (
  arith,
  eq_iff a.transaction_id b.transaction_id,
  operation_rank_iff a.operation b.operation,
  eq_iff a.project_id b.project_id,
  eq_iff a.command b.command,
  eq_iff a.idempotency_key b.idempotency_key,
  option_beq_iff string_eq a.base_dossier_sha256 b.base_dossier_sha256,
  dossier_beq_iff a.candidate_dossier b.candidate_dossier,
  audit_event_beq_iff a.audit_event b.audit_event,
  list_beq_iff requirement_eq a.required_artifacts b.required_artifacts,
)

plan_beq_refl : (a : Plan) → plan_beq a a ≡ true
unfolding plan_beq
plan_beq_refl a = ground (
  arith,
  eq_iff a.transaction_id a.transaction_id,
  operation_rank_iff a.operation a.operation,
  eq_iff a.project_id a.project_id,
  eq_iff a.command a.command,
  eq_iff a.idempotency_key a.idempotency_key,
  option_beq_iff string_eq a.base_dossier_sha256 a.base_dossier_sha256,
  dossier_beq_iff a.candidate_dossier a.candidate_dossier,
  audit_event_beq_iff a.audit_event a.audit_event,
  list_beq_iff requirement_eq a.required_artifacts a.required_artifacts,
)

pub plan_beq_iff : (a b : Plan) → (plan_beq a b ≡ true) ↔ (a ≡ b)
plan_beq_iff a b = (plan_beq_sound a b, (λ e. rw e (plan_beq_refl b)))

abbrev pub lists_id : String → List String → Bool
lists_id k ids = any (λ i. i == k) ids

-- The revisions that fit the operation.
revisions_ok : Operation → Plan → Bool
revisions_ok create p =
    p.base_revision == 0
    && (p.target_revision == 1
        && (p.candidate_dossier.revision == 1 && is_none p.base_dossier_sha256))
revisions_ok update p =
    p.target_revision == p.base_revision + 1
    && (p.candidate_dossier.revision == p.base_revision && is_some p.base_dossier_sha256)

-- `ProjectTransactionPlan(...)`: the pattern of the identity and `validate_plan_integrity`.
unfoldable pub validate_plan : Plan → Result Failure Plan
unfolding revisions_ok
validate_plan p =
    if not (is_safe_id p.transaction_id)
    then err validation_error
    else if not (p.candidate_dossier.project_id == p.project_id)
        || not (p.audit_event.project_id == p.project_id)
    then err validation_error
    else if not (lists_id p.audit_event.event_id p.candidate_dossier.audit_event_ids)
    then err validation_error
    else if not (p.audit_event.dossier_revision == p.target_revision)
    then err validation_error
    else if not (revisions_ok p.operation p)
    then err validation_error
    else ok p
