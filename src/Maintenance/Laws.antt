-- ===== src/Maintenance/Laws.antt =====
-- The files before and behind a maintenance run (src/axcalib/runtime/maintenance.py).
use axcalib.Prelude.{
  ◌≡◌, refl, Bool, false, ◌||◌, some, List, ◌==◌, string_eq, list_eq, Bool-cases, inl, inr, nat_beq,
  length,
}
use axcalib.Exec.{Result, ok, err}
use axcalib.Failure.{Failure}
use axcalib.Audit.{AuditEvent, append_once}
use axcalib.Maintenance.{
  FilePath, StoredFile, Tree, place, Area, archive, quarantine, Probe, RunOptions, Workspace,
  MaintenanceAction, scan, run_maintenance, closed, concluded, manifest_path, audit_event,
}
use axcalib.Maintenance.Moves.{IsFree, within}
use axcalib.Maintenance.Loop.{IsKept, scan-IsKept}

module _ (probe : Probe) (o : RunOptions) where
  closed-IsKept :
      (p : FilePath) (f : StoredFile) (xs : List MaintenanceAction) (t : Tree)
      (r : Result Failure Bool × List AuditEvent)
      → IsKept probe o p f t
      → IsKept probe o p f (closed probe o xs t r).1.tree
  closed-IsKept p f xs t (ok b, log) k = k
  closed-IsKept p f xs t (err e, log) k = k

  not_manifest :
      (area : Area) (p : FilePath) → (manifest_path probe o == within o.run_id area p) ≡ false
  not_manifest archive p = refl
  not_manifest quarantine p = refl

  place-IsKept :
      (p : FilePath) (f : StoredFile) (x : StoredFile) (t : Tree)
      → (manifest_path probe o == p) ≡ false
      → IsKept probe o p f t
      → IsKept probe o p f (place (manifest_path probe o) (some x) t)
  place-IsKept p f x t d (inl h) = inl (rw d h)
  place-IsKept p f x t d (inr (area, (y, n, m), a, g)) =
      inr (area, (y, rw d n, rw (not_manifest area p) m), a, g)

  concluded-IsKept :
      (p : FilePath) (f : StoredFile) (log : List AuditEvent) (r : List MaintenanceAction × Tree)
      → (manifest_path probe o == p) ≡ false
      → IsKept probe o p f r.1
      → IsKept probe o p f (concluded probe o log r).1.tree
  concluded-IsKept p f log (xs, t) d k =
      let manifest : StoredFile = record { content = probe.render xs; modified = o.now } in
      closed-IsKept p f xs (place (manifest_path probe o) (some manifest) t)
        (append_once (audit_event probe o (length xs) (probe.render xs)) log)
        (place-IsKept p f manifest t d k)

  -- Let no file that may move have a file at its destination in the archive or in quarantine
  -- for this run. Behind a run, with any listing and any arguments, every file but the run's
  -- manifest is where it was; or the run applies its decisions, the file was due for an area
  -- by `may_go`, and it stands there with its content and no longer at its path.
  pub run_maintenance-IsKept :
      (listing : List FilePath) (w : Workspace) (p : FilePath) (f : StoredFile)
      → IsFree o.run_id w.tree
      → (manifest_path probe o == p) ≡ false
      → w.tree p ≡ some f
      → IsKept probe o p f (run_maintenance probe o listing w).1.tree
  unfolding run_maintenance
  run_maintenance-IsKept listing w p f i d h =
      elim (Bool-cases (nat_beq o.stale_after 0 || nat_beq o.retention 0)) [
        | inl e ↦ rw e (inl h)
        | inr e ↦ rw e (
            concluded-IsKept p f w.log (scan probe o listing w.tree) d
              (scan-IsKept probe o listing p f w.tree i h))
      ]
