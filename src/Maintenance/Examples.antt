-- ===== src/Maintenance/Examples.antt =====
-- A workspace with a committed journal past its retention.
use axcalib.Prelude.{◌≡◌, refl, true, false, none, some, [], ◌∷◌, string_eq, list_eq}
use axcalib.Maintenance.{
  FilePath, StoredFile, place, archive, quarantine, Probe, RunOptions, Workspace, committed,
  run_maintenance, scan, visit,
}
use axcalib.Audit.{append_once}
use axcalib.Maintenance.Names.{ends_with}
use axcalib.Maintenance.Moves.{IsFree, within}
use axcalib.Maintenance.Loop.{IsKept}
use axcalib.Maintenance.Laws.{run_maintenance-IsKept}

abbrev probe : Probe
probe = record {
  lock_owner = λ s. none;
  pid_alive = λ n. false;
  journal_status = λ s. committed;
  sha256 = λ s. s;
  render = λ xs. "{}";
  details = λ b n s. s;
}

abbrev options : RunOptions
options = record {
  apply = true;
  stale_after = 10;
  retention = 100;
  quarantine_blocked_journals = false;
  now = 500;
  run_id = "maintenance-1";
}

abbrev journal_path : FilePath
journal_path = "transactions" ∷ "transaction-1.jsonl" ∷ []

abbrev old_journal : StoredFile
old_journal = record { content = "committed"; modified = 3 }

abbrev workspace : Workspace
workspace = record { tree = place journal_path (some old_journal) (λ _. none); log = [] }

workspace-IsFree : IsFree "maintenance-1" workspace.tree
workspace-IsFree archive p f x h = refl
workspace-IsFree quarantine p f x h = refl

run_maintenance-IsKept_example :
    IsKept probe options journal_path old_journal
      (run_maintenance probe options (journal_path ∷ []) workspace).1.tree
run_maintenance-IsKept_example =
    run_maintenance-IsKept probe options (journal_path ∷ []) workspace journal_path old_journal
      workspace-IsFree refl refl

-- The journal is in the archive.
archived_journal :
    (run_maintenance probe options (journal_path ∷ []) workspace).1.tree
      (within "maintenance-1" archive journal_path)
    ≡ some old_journal
unfolding run_maintenance append_once scan visit ends_with
archived_journal = refl
