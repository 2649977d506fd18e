-- ===== src/Maintenance.antt =====
-- The maintenance of a workspace (src/axcalib/runtime/maintenance.py). The workspace is a tree of
-- files by the parts of their paths below its root. The process table, SHA-256 and what is read of a
-- lock's and of a journal's text are arguments; times are in one unit.
pub mod Names
pub mod Moves
pub mod Loop
pub mod Laws
mod Examples
use axcalib.Prelude.{
  ℕ, ◌-◌, String, Bool, true, false, not, ◌&&◌, ◌||◌, Option, none, some, List, [], ◌∷◌, ◌++◌,
  ◌+++◌, any, leb, nat_beq, length, ◌==◌, string_eq, list_eq, if◌then◌else◌,
}
use axcalib.Exec.{Result, ok, err}
use axcalib.Failure.{Failure}
use axcalib.Audit.{AuditEvent, append_once}
use axcalib.Maintenance.Names.{starts_with, ends_with}

abbrev pub FilePath : Type 0
FilePath = List String

pub record StoredFile : Type 0 where
  pub content : String
  pub modified : ℕ

abbrev pub Tree : Type 0
Tree = FilePath → Option StoredFile

-- `os.replace` of what stands at a path, and the write of a whole file.
abbrev pub place : FilePath → Option StoredFile → Tree → Tree
place p f t other = if p == other then f else t other

abbrev pub move : FilePath → FilePath → Tree → Tree
move p q t = place q (t p) (place p none t)

pub data Kind : Type 0 where
  stale_lock orphan_temp transaction_journal : Kind

pub data Decision : Type 0 where
  quarantined archived active_owner manual_review_required candidate_only : Decision

pub data Area : Type 0 where
  archive quarantine : Area

abbrev pub area_name : Area → String
area_name archive = "archive"
area_name quarantine = "quarantine"

pub data JournalStatus : Type 0 where
  committed blocked reconcile_required other_status : JournalStatus

pub record MaintenanceAction : Type 0 where
  pub kind : Kind
  pub relative_path : FilePath
  pub age : ℕ
  pub decision : Decision
  pub destination : Option FilePath
  pub source_sha256 : String

-- What the code reads of the system and of texts.
pub record Probe : Type 0 where
  pub lock_owner : String → Option ℕ
  pub pid_alive : ℕ → Bool
  pub journal_status : String → JournalStatus
  pub sha256 : String → String
  pub render : List MaintenanceAction → String
  pub details : Bool → ℕ → String → String

-- The arguments of one run, with its ID.
pub record RunOptions : Type 0 where
  pub apply : Bool
  pub stale_after : ℕ
  pub retention : ℕ
  pub quarantine_blocked_journals : Bool
  pub now : ℕ
  pub run_id : String

pub data MaintenanceError : Type 0 where
  invalid_threshold : MaintenanceError
  audit_failed : Failure → MaintenanceError

-- The tree of files and the log of the maintenance's own events.
pub record Workspace : Type 0 where
  pub tree : Tree
  pub log : List AuditEvent

-- `_excluded`
abbrev pub is_area : String → Bool
is_area part = part == "archive" || (part == "quarantine" || part == "maintenance")

abbrev pub excluded : FilePath → Bool
excluded p = any is_area p

abbrev last_part : String → List String → String
last_part x [] = x
last_part x (y ∷ ys) = last_part y ys

-- `path.name`, and `path.parent.name` below the root.
abbrev pub name_of : FilePath → String
name_of [] = ""
name_of (x ∷ xs) = last_part x xs

abbrev pub parent_of : FilePath → String
parent_of [] = ""
parent_of (x ∷ []) = ""
parent_of (x ∷ y ∷ []) = x
parent_of (x ∷ y ∷ z ∷ rest) = parent_of (y ∷ z ∷ rest)

abbrev pub is_journal : FilePath → Bool
is_journal p =
    parent_of p == "transactions"
    && (starts_with (name_of p) "transaction-" && ends_with ".jsonl" (name_of p))

module _ (probe : Probe) (o : RunOptions) where
  abbrev pub destination_of : Area → FilePath → FilePath
  destination_of area p = area_name area ∷ o.run_id ∷ p

  -- `_action`
  abbrev pub report : FilePath → StoredFile → ℕ → Kind → Decision → MaintenanceAction
  report p f age kind decision = record {
    kind = kind;
    relative_path = p;
    age = age;
    decision = decision;
    destination = none;
    source_sha256 = probe.sha256 f.content;
  }

  abbrev moved_to : Area → Decision
  moved_to archive = archived
  moved_to quarantine = quarantined

  -- `_move_action`
  abbrev pub move_action : FilePath → StoredFile → ℕ → Kind → Area → Tree → MaintenanceAction × Tree
  move_action p f age kind area t =
      if not o.apply then (report p f age kind candidate_only, t) else (
        record (report p f age kind (moved_to area)) { destination = some (destination_of area p) },
        move p (destination_of area p) t,
      )

  abbrev pub alive : Option ℕ → Bool
  alive none = false
  alive (some pid) = probe.pid_alive pid

  -- `_handle_lock`
  abbrev pub handle_lock : FilePath → StoredFile → ℕ → Tree → MaintenanceAction × Tree
  handle_lock p f age t =
      if alive (probe.lock_owner f.content)
      then (report p f age stale_lock active_owner, t)
      else move_action p f age stale_lock quarantine t

  -- Where a journal of a status goes.
  abbrev pub journal_area : JournalStatus → Option Area
  journal_area committed = some archive
  journal_area blocked = if o.quarantine_blocked_journals then some quarantine else none
  journal_area reconcile_required = if o.quarantine_blocked_journals then some quarantine else none
  journal_area other_status = none

  abbrev pub journal_action :
      Option Area → FilePath → StoredFile → ℕ → Tree → MaintenanceAction × Tree
  journal_action none p f age t = (report p f age transaction_journal manual_review_required, t)
  journal_action (some area) p f age t = move_action p f age transaction_journal area t

  -- `_handle_journal`
  abbrev pub handle_journal : FilePath → StoredFile → ℕ → Tree → MaintenanceAction × Tree
  handle_journal p f age t =
      journal_action (journal_area (probe.journal_status f.content)) p f age t

  abbrev pub noted : MaintenanceAction × Tree → List MaintenanceAction × Tree
  noted (a, t) = (a ∷ [], t)

  -- The branches of the loop's body; an age below zero counts as zero.
  abbrev pub handle : FilePath → StoredFile → Tree → List MaintenanceAction × Tree
  handle p f t =
      let age = o.now - f.modified in
      if ends_with ".lock" (name_of p) && leb o.stale_after age
      then noted (handle_lock p f age t)
      else if ends_with ".tmp" (name_of p) && leb o.stale_after age
      then noted (move_action p f age orphan_temp quarantine t)
      else if is_journal p && leb o.retention age
      then noted (handle_journal p f age t)
      else ([], t)

  abbrev pub visit_found : FilePath → Option StoredFile → Tree → List MaintenanceAction × Tree
  visit_found p none t = ([], t)
  visit_found p (some f) t = if excluded p then ([], t) else handle p f t

  unfoldable pub visit : FilePath → Tree → List MaintenanceAction × Tree
  visit p t = visit_found p (t p) t

  abbrev pub behind :
      List MaintenanceAction → List MaintenanceAction × Tree → List MaintenanceAction × Tree
  behind xs (ys, t) = (xs ++ ys, t)

  -- The loop over `sorted(self.root.rglob("*"))`, which is listed before it starts.
  unfoldable pub scan : List FilePath → Tree → List MaintenanceAction × Tree
  scan [] t = ([], t)
  scan (p ∷ ps) t = let (xs, t') = visit p t in behind xs (scan ps t')

  abbrev pub manifest_path : FilePath
  manifest_path = "maintenance" ∷ (o.run_id +++ ".json") ∷ []

  abbrev pub audit_event : ℕ → String → AuditEvent
  audit_event count manifest = record {
    event_id = "evt-" +++ o.run_id;
    project_id = "workspace";
    dossier_revision = 1;
    body = probe.details o.apply count (probe.sha256 manifest);
  }

  abbrev closed :
      List MaintenanceAction
      → Tree
      → Result Failure Bool × List AuditEvent
      → Result MaintenanceError (List MaintenanceAction) × Workspace
  closed xs t (ok b, log) = (ok xs, record { tree = t; log = log })
  closed xs t (err e, log) = (err (audit_failed e), record { tree = t; log = log })

  -- The manifest and the audit event behind the loop.
  abbrev pub concluded :
      List AuditEvent
      → List MaintenanceAction × Tree
      → Result MaintenanceError (List MaintenanceAction) × Workspace
  concluded log (xs, t) =
      let manifest : String = probe.render xs in
      closed xs (place manifest_path (some (record { content = manifest; modified = o.now })) t)
        (append_once (audit_event (length xs) manifest) log)

  -- `LocalWorkspaceMaintenance.run` on the sorted listing of the tree.
  unfoldable pub run_maintenance :
      List FilePath → Workspace → Result MaintenanceError (List MaintenanceAction) × Workspace
  run_maintenance listing w =
      if nat_beq o.stale_after 0 || nat_beq o.retention 0
      then (err invalid_threshold, w)
      else concluded w.log (scan listing w.tree)
