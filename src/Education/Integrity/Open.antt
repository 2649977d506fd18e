-- ===== src/Education/Integrity/Open.antt =====
-- The walk over the milestones in their order, for those that are neither locked nor completed
-- (`_unlock_dependents`, src/axcalib/programs/service.py).
use axcalib.Prelude.{
  String, ◌≡◌, refl, true, false, not, ◌||◌, some, List, [], ◌∷◌, any, all, All, arith, eq_iff,
  eq_refl, string_eq, Bool-cases, inl, inr,
}
use axcalib.Education.Schema.{text_in, unique_texts}
use axcalib.Education.Program.{Placed, ids}
use axcalib.Education.Program.Prerequisites.{in_order}
use axcalib.Education.Enrollment.{MilestoneProgress, is_completed, is_locked, progress_ids}
use axcalib.Education.Progress.{completed_ids, spec_of}
use axcalib.Education.History.{goal, goals}
use axcalib.Education.Integrity.Frontier.{
  closed, is_open, all_completed, waits, IsWithin, all-IsWithin,
}

-- `specs[milestone_id]` is this milestone.
abbrev Found : List Placed → Placed → Type 0
Found specs q = spec_of q.milestone.milestone_id specs ≡ some q.milestone

Found-skip :
    (x : Placed) (specs qs : List Placed)
    → text_in x.milestone.milestone_id (ids qs) ≡ false
    → All (Found specs) qs
    → All (Found (x ∷ specs)) qs
Found-skip x specs [] f a = tt
Found-skip x specs (q ∷ qs) f a = (
  ground (
    arith,
    a.0,
    eq_iff x.milestone.milestone_id q.milestone.milestone_id,
    eq_iff q.milestone.milestone_id x.milestone.milestone_id,
  ),
  Found-skip x specs qs (ground arith) a.1,
)

All-Found : (qs : List Placed) → unique_texts (ids qs) ≡ true → All (Found qs) qs
All-Found [] u = tt
All-Found (q ∷ qs) u = (
  ground (arith, eq_refl q.milestone.milestone_id),
  Found-skip q qs qs (ground arith) (All-Found qs (ground arith)),
)

waits-goal :
    (specs : List Placed) (q : Placed)
    → Found specs q
    → (not (is_locked (goal q).status) || waits [] (spec_of q.milestone.milestone_id specs)) ≡ true
waits-goal specs q f = rw f (ground arith)

goals-closed : (specs qs : List Placed) → All (Found specs) qs → closed [] specs (goals qs) ≡ true
goals-closed specs [] a = refl
goals-closed specs (q ∷ qs) a = ground (arith, waits-goal specs q a.0, goals-closed specs qs a.1)

-- At the enrollment only milestones with prerequisites are locked.
pub enrolled-closed :
    (qs : List Placed) → unique_texts (ids qs) ≡ true → closed [] qs (goals qs) ≡ true
enrolled-closed qs u = goals-closed qs qs (All-Found qs u)

abbrev IsDone : List String → List MilestoneProgress → Type 0
IsDone done ps =
    all (λ (p : MilestoneProgress). not (is_completed p.status) || text_in p.milestone_id done) ps
    ≡ true

IsDone-IsWithin :
    (xs ys : List String) (ps : List MilestoneProgress)
    → IsWithin xs ys
    → IsDone xs ps
    → IsDone ys ps
IsDone-IsWithin xs ys [] w d = refl
IsDone-IsWithin xs ys (p ∷ ps) w d = ground (arith, w p.milestone_id, IsDone-IsWithin xs ys ps w)

completed_ids-cons :
    (p : MilestoneProgress) (ps : List MilestoneProgress)
    → IsWithin (completed_ids ps) (completed_ids (p ∷ ps))
completed_ids-cons p ps k h = ground arith

completed_ids-IsDone : (ps : List MilestoneProgress) → IsDone (completed_ids ps) ps
completed_ids-IsDone [] = refl
completed_ids-IsDone (p ∷ ps) = ground (
  arith,
  eq_refl p.milestone_id,
  IsDone-IsWithin (completed_ids ps) (completed_ids (p ∷ ps)) ps (completed_ids-cons p ps)
      (completed_ids-IsDone ps),
)

-- A milestone whose prerequisites are completed does not wait.
not_waiting :
    (done seen : List String) (specs : List Placed) (q : Placed)
    → Found specs q
    → IsWithin seen done
    → all (λ k. text_in k seen) q.milestone.prerequisites ≡ true
    → waits done (spec_of q.milestone.milestone_id specs) ≡ false
not_waiting done seen specs q f w h =
    rw f (ground (arith, all-IsWithin seen done q.milestone.prerequisites w h))

IsWithin-cons :
    (k : String) (seen done : List String)
    → text_in k done ≡ true
    → IsWithin seen done
    → IsWithin (k ∷ seen) done
IsWithin-cons k seen done h w j i = ground (arith, w j, eq_iff k j)

first_open :
    (done seen : List String) (specs qs : List Placed) (ps : List MilestoneProgress)
    → All (Found specs) qs
    → progress_ids ps ≡ ids qs
    → closed done specs ps ≡ true
    → in_order seen qs ≡ true
    → IsWithin seen done
    → IsDone done ps
    → (all_completed ps || any is_open ps) ≡ true
first_open done seen specs qs [] a s c o w d = refl
first_open done seen specs [] (p ∷ ps) a s c o w d = absurd (cc s)
first_open done seen specs (q ∷ qs) (p ∷ ps) a s c o w d =
    let same : p.milestone_id ≡ q.milestone.milestone_id = cc (s) in
    let rest : progress_ids ps ≡ ids qs = cc (s) in
    elim (Bool-cases (is_completed p.status)) [
      | inl e ↦
          let here : text_in q.milestone.milestone_id done ≡ true = ground (arith, same) in
          ground (
            arith,
            first_open done (q.milestone.milestone_id ∷ seen) specs qs ps a.1 rest (ground arith)
                (ground arith) (IsWithin-cons q.milestone.milestone_id seen done here w)
                (ground arith),
          )
      | inr e ↦ ground (arith, same, not_waiting done seen specs q a.0 w (ground arith))
    ]

-- Where every locked milestone waits for a prerequisite, one is open or all are completed.
pub closed-open :
    (specs : List Placed) (ps : List MilestoneProgress)
    → unique_texts (ids specs) ≡ true
    → in_order [] specs ≡ true
    → progress_ids ps ≡ ids specs
    → closed (completed_ids ps) specs ps ≡ true
    → (all_completed ps || any is_open ps) ≡ true
closed-open specs ps u o s c =
    first_open (completed_ids ps) [] specs specs ps (All-Found specs u) s c o (λ k h. absurd (cc h))
      (completed_ids-IsDone ps)
