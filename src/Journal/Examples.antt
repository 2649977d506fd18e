-- ===== src/Journal/Examples.antt =====
-- A journal of one transaction, event by event.
use Prim.Native.String as NativeString
use axcalib.Prelude.{fits, String, ◌≡◌, ◌⊎◌, refl, true, false, none, some, List, [], ◌∷◌, ◌++◌}
use axcalib.Exec.{ok, err}
use axcalib.Failure.{validation_error}
use axcalib.Files.{Files, write}
use axcalib.Identifiers.{is_safe_id}
use axcalib.Dossier.{Dossier}
use axcalib.Audit.{AuditEvent}
use axcalib.Plans.{Plan, create}
use axcalib.Journal.{
  prepared, applying, reconcile_required, reconciling, reason_ok, committed, Payload, JournalEvent,
  Line, Journal, event, new_event, read, prepare, append_status,
}
use axcalib.Journal
use axcalib.Journal.Chain.{IsChain}
use axcalib.Journal.Chain.Append.Reason.{append_status-too_long}
use axcalib.Journal.Chain.Append.{read-IsChain, read-append, status_event}
use axcalib.Journal.Tamper.{HasCollision, last_hash_determines}

abbrev pub event_1 : AuditEvent
event_1 = record { event_id = "e1"; project_id = "p1"; dossier_revision = 1; body = "{}" }

abbrev pub candidate : Dossier
candidate = record {
  project_id = "p1";
  revision = 1;
  updated_at = 5;
  audit_event_ids = "e1" ∷ [];
  body = "{}";
}

abbrev pub plan_1 : Plan
plan_1 = record {
  transaction_id = "txn-e1";
  operation = create;
  project_id = "p1";
  command = "create_project";
  idempotency_key = "key-1";
  base_revision = 0;
  target_revision = 1;
  base_dossier_sha256 = none;
  candidate_dossier = candidate;
  audit_event = event_1;
  required_artifacts = [];
}

-- A digest for the examples, of the identity alone.
abbrev pub digest : Payload → String
digest p = p.transaction_id

abbrev pub path_name : String → String
path_name id = NativeString.◌++◌ id ".jsonl"

abbrev pub no_files : Files (List Line)
no_files name = none

abbrev e₁ : JournalEvent
e₁ = new_event digest "txn-e1" [] 7 prepared none (some plan_1)

abbrev e₂ : JournalEvent
e₂ = new_event digest "txn-e1" (e₁ ∷ []) 8 applying none none

abbrev e₃ : JournalEvent
e₃ = new_event digest "txn-e1" (e₁ ∷ e₂ ∷ []) 9 committed none none

abbrev lines_2 : List Line
lines_2 = event e₁ ∷ event e₂ ∷ []

abbrev journal_2 : Journal
journal_2 = record { plan = plan_1; events = e₁ ∷ e₂ ∷ [] }

abbrev journal_3 : Journal
journal_3 = record { plan = plan_1; events = e₁ ∷ e₂ ∷ e₃ ∷ [] }

abbrev lines_3 : List Line
lines_3 = event e₁ ∷ event e₂ ∷ event e₃ ∷ []

reads_2 : read digest (some lines_2) ≡ ok journal_2
unfolding read new_event
reads_2 = refl

reads_3 : read digest (some lines_3) ≡ ok journal_3
unfolding read new_event
reads_3 = refl

pub safe_1 : is_safe_id "txn-e1" ≡ true
unfolding is_safe_id
safe_1 = refl

abbrev files_2 : Files (List Line)
files_2 name = some lines_2

abbrev files_3 : Files (List Line)
files_3 name = some lines_3

read-IsChain_example : IsChain digest 1 none (e₁ ∷ e₂ ∷ [])
read-IsChain_example = read-IsChain digest lines_2 journal_2 reads_2

read-append_example :
    read digest (some (lines_2 ++ event (status_event digest journal_2 9 committed none) ∷ []))
    ≡ ok (record journal_2 {
      events = e₁ ∷ e₂ ∷ status_event digest journal_2 9 committed none ∷ [];
    })
read-append_example = read-append digest lines_2 journal_2 9 committed none reads_2 refl

-- A class name of 201 characters.
abbrev long_name : String
long_name =
    "InjectedErrorxxxxxxxxxxxxxxxxxxxxxxxxxxxxxxxxxxxxxxxxxxxxxxxxxxxxxxxxxxxxxxxxxxxxxxxxxxxxxxxxxxxxxxxxxxxxxxxxxxxxxxxxxxxxxxxxxxxxxxxxxxxxxxxxxxxxxxxxxxxxxxxxxxxxxxxxxxxxxxxxxxxxxxxxxxxxxxxxxxxxxxxxxxxx"

-- Its test computes, as the record's limit of 200 does.
long_name-too_long : reason_ok (some long_name) ≡ false
unfolding fits
long_name-too_long = refl

abbrev long_event : JournalEvent
long_event = status_event digest journal_2 9 reconcile_required (some long_name)

abbrev long_files : Files (List Line)
long_files = write "txn-e1.jsonl" (lines_2 ++ event long_event ∷ []) files_2

append_status-too_long_example :
    (append_status digest path_name "txn-e1" 9 reconcile_required (some long_name) files_2
      ≡ (err validation_error, long_files))
    × (Journal.load digest path_name "txn-e1" long_files ≡ err validation_error)
append_status-too_long_example =
    append_status-too_long digest path_name files_2 lines_2 journal_2 9 reconcile_required
      (some long_name) safe_1 refl reads_2 (unfold new_event in refl) long_name-too_long

abbrev other_event : JournalEvent
other_event = new_event digest "txn-e1" (e₁ ∷ []) 8 reconciling none none

abbrev other_lines : List Line
other_lines = event e₁ ∷ event other_event ∷ []

abbrev other_journal : Journal
other_journal = record { plan = plan_1; events = e₁ ∷ other_event ∷ [] }

reads_other : read digest (some other_lines) ≡ ok other_journal
unfolding read new_event
reads_other = refl

last_hash_determines_example : (journal_2.events ≡ other_journal.events) ⊎ HasCollision digest
last_hash_determines_example =
    last_hash_determines digest lines_2 other_lines journal_2 other_journal e₁ e₁ (e₂ ∷ [])
      (other_event ∷ []) reads_2 reads_other refl refl (unfold new_event in refl)

abbrev prepared_files : Files (List Line)
prepared_files = (prepare digest path_name plan_1 7 no_files).1
