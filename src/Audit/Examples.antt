-- ===== src/Audit/Examples.antt =====
-- The audit log at concrete events.
use axcalib.Prelude.{refl, List, [], ◌∷◌}
use axcalib.Audit.{AuditEvent, append_once, contains}
use axcalib.Audit.Laws.{UniqueIds, append_once-UniqueIds}

abbrev audit_1 : AuditEvent
audit_1 = record { event_id = "e1"; project_id = "p1"; dossier_revision = 1; body = "{}" }

abbrev audit_2 : AuditEvent
audit_2 = record { event_id = "e2"; project_id = "p1"; dossier_revision = 2; body = "{}" }

abbrev log_1 : List AuditEvent
log_1 = audit_1 ∷ []

append_once-UniqueIds_example : UniqueIds (append_once audit_2 log_1).1
append_once-UniqueIds_example = append_once-UniqueIds audit_2 log_1 (unfold contains in (refl, tt))
