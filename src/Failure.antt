-- ===== src/Failure.antt =====
-- The exceptions of the dossier repository, the audit log and the transaction journal, and the
-- class names that the journal keeps (`type(error).__name__`).
use axcalib.Prelude.{String}

pub data Failure : Type 0 where
  transaction_error transaction_conflict transaction_integrity validation_error : Failure
  transaction_blocked : String → Failure
  dossier_error dossier_already_exists dossier_not_found revision_conflict : Failure
  audit_log_conflict : Failure
  injected : String → Failure

unfoldable pub class_name : Failure → String
class_name transaction_error = "TransactionError"
class_name transaction_conflict = "TransactionConflictError"
class_name transaction_integrity = "TransactionIntegrityError"
class_name validation_error = "ValidationError"
class_name (transaction_blocked reason) = "TransactionBlockedError"
class_name dossier_error = "DossierError"
class_name dossier_already_exists = "DossierAlreadyExistsError"
class_name dossier_not_found = "DossierNotFoundError"
class_name revision_conflict = "RevisionConflictError"
class_name audit_log_conflict = "AuditLogConflictError"
class_name (injected name) = name
