-- ===== src/Audit.antt =====
-- The append-only audit log (src/axcalib/audit/log.py). `body` stands for an event's fields beside
-- its identity, its project and its revision; the log's file is the list of its JSON lines.
pub mod Laws
mod Examples
use axcalib.Prelude.{
  ℕ, String, ◌≡◌, ◌↔◌, refl, Bool, true, false, not, ◌&&◌, List, [], ◌∷◌, ◌++◌, any, arith, eq_iff,
  Eq, ◌==◌, string_eq, nat_eq, if◌then◌else◌,
}
use axcalib.Exec.{Result, ok, err, Exec}
use axcalib.Failure.{Failure, audit_log_conflict}

pub record AuditEvent : Type 0 where
  pub event_id : String
  pub project_id : String
  pub dossier_revision : ℕ
  pub body : String

abbrev pub audit_event_beq : AuditEvent → AuditEvent → Bool
audit_event_beq a b =
    a.event_id == b.event_id
    && (a.project_id == b.project_id
        && (a.dossier_revision == b.dossier_revision && a.body == b.body))

pub audit_event_beq_iff : (a b : AuditEvent) → (audit_event_beq a b ≡ true) ↔ (a ≡ b)
audit_event_beq_iff a b = (
  (λ h. ground (
    arith,
    eq_iff a.event_id b.event_id,
    eq_iff a.project_id b.project_id,
    eq_iff a.body b.body,
  )),
  (λ h. ground (
    arith,
    eq_iff a.event_id b.event_id,
    eq_iff a.project_id b.project_id,
    eq_iff a.body b.body,
  )),
)

instance abbrev pub audit_event_eq : Eq AuditEvent
audit_event_eq = record { beq = audit_event_beq; beq_iff = audit_event_beq_iff }

-- The loop of `append_once`: the first line with the event's ID decides; with none, a new line.
seen : AuditEvent → List AuditEvent → Result Failure Bool
seen event [] = ok false
seen event (current ∷ rest) =
    if not (current.event_id == event.event_id)
    then seen event rest
    else if not (current == event)
    then err audit_log_conflict
    else ok true

after_scan : AuditEvent → Result Failure Bool → Exec (List AuditEvent) Failure Bool
after_scan event (err x) log = (err x, log)
after_scan event (ok true) log = (ok false, log)
after_scan event (ok false) log = (ok true, log ++ event ∷ [])

-- `AuditLog.append_once`: whether a line was written.
unfoldable pub append_once : AuditEvent → Exec (List AuditEvent) Failure Bool
unfolding seen after_scan
append_once event log = after_scan event (seen event log) log

-- `AuditLog.contains`
unfoldable pub contains : String → List AuditEvent → Bool
contains event_id log = any (λ e. e.event_id == event_id) log
