-- ===== src/Education/Integrity/Unlocking.antt =====
-- What `_unlock_dependents` leaves as it was, and what it opens
-- (src/axcalib/programs/service.py).
use axcalib.Prelude.{
  String, ◌≡◌, true, some, List, [], ◌∷◌, all, arith, string_eq, Option-cases, inl, inr,
}
use axcalib.Education.Schema.{EducationProgram}
use axcalib.Education.Program.{Placed, milestones}
use axcalib.Education.Enrollment.{MilestoneProgress, is_completed, progress_ok, progress_ids}
use axcalib.Education.Progress.{completed_ids, unlock_items, unlock_item, unlock_dependents}

-- What `_unlock_dependents` leaves as it was.
pub record IsUnlocking (ps qs : List MilestoneProgress) : Type 0 where
  pub same_ids : progress_ids qs ≡ progress_ids ps
  pub same_completed : completed_ids qs ≡ completed_ids ps
  pub still_ok : all progress_ok ps ≡ true → all progress_ok qs ≡ true

pub cons-cases :
    (done : List String) (specs : List Placed) (p : MilestoneProgress)
    (ps qs : List MilestoneProgress)
    → unlock_items done specs (p ∷ ps) ≡ some qs
    → (q : MilestoneProgress) × (rest : List MilestoneProgress) × (unlock_item done specs p
        ≡ some q)
      × (unlock_items done specs ps ≡ some rest)
      × (qs ≡ q ∷ rest)
unfolding unlock_items
cons-cases done specs p ps qs h = elim (Option-cases (unlock_item done specs p)) [
  | inl e ↦ absurd (ground (arith, e))
  | inr (q, e) ↦ elim (Option-cases (unlock_items done specs ps)) [
    | inl f ↦ absurd (ground (arith, e, f))
    | inr (rest, f) ↦ (q, rest, e, f, ground (arith, e, f))
  ]
]

-- One item: it keeps its ID, and no item becomes or ceases to be completed.
unlock_item-same :
    (done : List String) (specs : List Placed) (p q : MilestoneProgress)
    → unlock_item done specs p ≡ some q
    → (q.milestone_id ≡ p.milestone_id)
      × (is_completed q.status ≡ is_completed p.status)
      × (progress_ok p ≡ true → progress_ok q ≡ true)
unfolding progress_ok
unlock_item-same done specs p q h = ground arith

items-IsUnlocking :
    (done : List String) (specs : List Placed) (ps qs : List MilestoneProgress)
    → unlock_items done specs ps ≡ some qs
    → IsUnlocking ps qs
unfolding unlock_items
items-IsUnlocking done specs [] qs h = record {
  same_ids = ground arith;
  same_completed = ground arith;
  still_ok = λ a. ground arith;
}
items-IsUnlocking done specs (p ∷ ps) qs h =
    let (q, rest, e, f, g) = cons-cases done specs p ps qs h in
    let (same, comp, ok) = unlock_item-same done specs p q e in
    let ih = items-IsUnlocking done specs ps rest f in
    record {
      same_ids = ground (arith, g, same, ih.same_ids);
      same_completed = ground (arith, g, same, comp, ih.same_completed);
      still_ok = λ a. ground (arith, g, ok, ih.still_ok);
    }

pub unlock_dependents-IsUnlocking :
    (ps : List MilestoneProgress) (program : EducationProgram) (qs : List MilestoneProgress)
    → unlock_dependents ps program ≡ some qs
    → IsUnlocking ps qs
unfolding unlock_dependents
unlock_dependents-IsUnlocking ps program qs h =
    items-IsUnlocking (completed_ids ps) (milestones program) ps qs h
