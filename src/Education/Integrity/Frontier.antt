-- ===== src/Education/Integrity/Frontier.antt =====
-- Which milestones may stay locked
-- (`_unlock_dependents`, src/axcalib/programs/service.py).
use axcalib.Prelude.{
  String, ◌≡◌, refl, sym, subst, Bool, true, false, not, ◌&&◌, ◌||◌, Option, none, some, List, [],
  ◌∷◌, all, arith, string_eq,
}
use axcalib.Education.Schema.{MilestoneSpec, text_in}
use axcalib.Education.Program.{Placed}
use axcalib.Education.Enrollment.{MilestoneProgress, is_completed, is_locked}
use axcalib.Education.Progress.{completed_ids, replace_progress, unlock_items, unlock_item, spec_of}
use axcalib.Education.Actions.{reopen}
use axcalib.Education.History.{goals}
use axcalib.Education.Integrity.Unlocking.{cons-cases}

-- The milestone has a prerequisite that is not completed.
abbrev pub waits : List String → Option MilestoneSpec → Bool
waits done none = true
waits done (some m) = not (all (λ k. text_in k done) m.prerequisites)

-- Every locked milestone waits for a prerequisite.
abbrev pub closed : List String → List Placed → List MilestoneProgress → Bool
closed done specs [] = true
closed done specs (p ∷ ps) =
    (not (is_locked p.status) || waits done (spec_of p.milestone_id specs)) && closed done specs ps

-- Neither locked nor completed.
abbrev pub is_open : MilestoneProgress → Bool
is_open p = not (is_locked p.status) && not (is_completed p.status)

abbrev pub all_completed : List MilestoneProgress → Bool
all_completed ps = all (λ (p : MilestoneProgress). is_completed p.status) ps

item-waits :
    (done : List String) (specs : List Placed) (p q : MilestoneProgress)
    → unlock_item done specs p ≡ some q
    → (not (is_locked q.status) || waits done (spec_of q.milestone_id specs)) ≡ true
item-waits done specs p q h = ground arith

pub unlock_items-closed :
    (done : List String) (specs : List Placed) (ps qs : List MilestoneProgress)
    → unlock_items done specs ps ≡ some qs
    → closed done specs qs ≡ true
unfolding unlock_items
unlock_items-closed done specs [] qs h = ground arith
unlock_items-closed done specs (p ∷ ps) qs h =
    let (q, rest, e, f, g) = cons-cases done specs p ps qs h in
    subst (λ x. closed done specs x ≡ true) (sym g)
      (ground (arith, item-waits done specs p q e, unlock_items-closed done specs ps rest f))

pub closed-replace :
    (done : List String) (specs : List Placed) (ps : List MilestoneProgress) (u : MilestoneProgress)
    → is_locked u.status ≡ false
    → closed done specs ps ≡ true
    → closed done specs (replace_progress ps u) ≡ true
unfolding replace_progress
closed-replace done specs [] u l c = refl
closed-replace done specs (p ∷ ps) u l c = ground (arith, closed-replace done specs ps u l)

pub closed-reopen :
    (done : List String) (specs : List Placed) (ks : List String) (ps : List MilestoneProgress)
    → closed done specs ps ≡ true
    → closed done specs (reopen ks ps) ≡ true
unfolding reopen
closed-reopen done specs ks [] c = refl
closed-reopen done specs ks (p ∷ ps) c = ground (arith, closed-reopen done specs ks ps)

-- One list of IDs holds no others than another.
abbrev pub IsWithin : List String → List String → Type 0
IsWithin xs ys = (k : String) → text_in k xs ≡ true → text_in k ys ≡ true

pub all-IsWithin :
    (xs ys ks : List String)
    → IsWithin xs ys
    → all (λ k. text_in k xs) ks ≡ true
    → all (λ k. text_in k ys) ks ≡ true
all-IsWithin xs ys [] w h = refl
all-IsWithin xs ys (k ∷ ks) w h = ground (arith, w k, all-IsWithin xs ys ks w)

waits-IsWithin :
    (xs ys : List String) (o : Option MilestoneSpec)
    → IsWithin xs ys
    → waits ys o ≡ true
    → waits xs o ≡ true
waits-IsWithin xs ys none w h = refl
waits-IsWithin xs ys (some m) w h = ground (arith, all-IsWithin xs ys m.prerequisites w)

-- Where fewer milestones are completed, what waited waits.
pub closed-IsWithin :
    (xs ys : List String) (specs : List Placed) (ps : List MilestoneProgress)
    → IsWithin xs ys
    → closed ys specs ps ≡ true
    → closed xs specs ps ≡ true
closed-IsWithin xs ys specs [] w c = refl
closed-IsWithin xs ys specs (p ∷ ps) w c =
    ground (
      arith,
      waits-IsWithin xs ys (spec_of p.milestone_id specs) w,
      closed-IsWithin xs ys specs ps w,
    )

pub completed_ids-replace :
    (ps : List MilestoneProgress) (u : MilestoneProgress)
    → is_completed u.status ≡ false
    → IsWithin (completed_ids (replace_progress ps u)) (completed_ids ps)
unfolding replace_progress
completed_ids-replace [] u o k h = h
completed_ids-replace (p ∷ ps) u o k h = ground (arith, completed_ids-replace ps u o k)

pub completed_ids-reopen :
    (ks : List String) (ps : List MilestoneProgress)
    → IsWithin (completed_ids (reopen ks ps)) (completed_ids ps)
unfolding reopen
completed_ids-reopen ks [] k h = h
completed_ids-reopen ks (p ∷ ps) k h = ground (arith, completed_ids-reopen ks ps k)

pub completed_ids-goals : (qs : List Placed) → completed_ids (goals qs) ≡ []
completed_ids-goals [] = refl
completed_ids-goals (q ∷ qs) = ground (arith, completed_ids-goals qs)
