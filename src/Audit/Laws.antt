-- ===== src/Audit/Laws.antt =====
-- Appends to the audit log (src/axcalib/audit/log.py).
use axcalib.Prelude.{
  String, ◌≡◌, refl, Bool, true, false, ◌||◌, List, [], ◌∷◌, ◌++◌, arith, eq_iff, ◌==◌, ◌⊎◌,
  string_eq,
}
use axcalib.Exec.{Result, ok, err}
use axcalib.Audit.{AuditEvent, audit_event_eq, seen, after_scan, append_once, contains}

-- No two lines have one event ID.
abbrev pub UniqueIds : List AuditEvent → Type 0
UniqueIds [] = Unit
UniqueIds (e ∷ log) = (contains e.event_id log ≡ false) × UniqueIds log

contains_scan :
    (e : AuditEvent) (log : List AuditEvent) (b : Bool)
    → seen e log ≡ ok b
    → contains e.event_id log ≡ b
unfolding seen contains
contains_scan e [] b h = ground arith
contains_scan e (x ∷ log) b h = ground (arith, contains_scan e log b)

contains-snoc :
    (k : String) (e : AuditEvent) (log : List AuditEvent)
    → contains k (log ++ e ∷ []) ≡ (contains k log || e.event_id == k)
unfolding contains
contains-snoc k e [] = ground arith
contains-snoc k e (x ∷ log) = ground (arith, contains-snoc k e log)

snoc-UniqueIds :
    (e : AuditEvent) (log : List AuditEvent)
    → contains e.event_id log ≡ false
    → UniqueIds log
    → UniqueIds (log ++ e ∷ [])
unfolding contains
snoc-UniqueIds e [] h u = (refl, tt)
snoc-UniqueIds e (x ∷ log) h u = (
  ground (
    arith,
    contains-snoc x.event_id e log,
    eq_iff e.event_id x.event_id,
    eq_iff x.event_id e.event_id,
  ),
  snoc-UniqueIds e log (ground arith) u.1,
)

-- Whatever is appended, whether it is accepted or refused, the log keeps at most one line for each
-- event ID.
pub append_once-UniqueIds :
    (e : AuditEvent) (log : List AuditEvent) → UniqueIds log → UniqueIds (append_once e log).1
unfolding append_once
append_once-UniqueIds e log u = scanned (seen e log) refl
  where
    scanned : (r : Result _ Bool) → seen e log ≡ r → UniqueIds (after_scan e r log).1
    scanned (err x) h = u
    scanned (ok true) h = u
    scanned (ok false) h = snoc-UniqueIds e log (contains_scan e log false h) u

-- Some line of the log is this event, in all its fields.
abbrev pub IsIn : AuditEvent → List AuditEvent → Type 0
IsIn e [] = ⊥
IsIn e (x ∷ log) = (x ≡ e) ⊎ IsIn e log
