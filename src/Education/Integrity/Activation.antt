-- ===== src/Education/Integrity/Activation.antt =====
-- The transactions that leave an enrollment active: a start, a bound project and a recorded result
-- (src/axcalib/programs/service.py).
use axcalib.Prelude.{
  inl, inr, Option-cases, subst, ℕ, String, ◌≡◌, refl, ap, ◌∙◌, sym, true, false, Option, some,
  List, [], ◌∷◌, ◌++◌, all, arith, string_eq, option_eq,
}
use axcalib.Exec.{ok, Result-cases}
use axcalib.Education.Schema.{MilestoneSpec, EducationProgram, unique_texts}
use axcalib.Education.Program.{Placed, milestones}
use axcalib.Education.Enrollment.{
  RequirementResult, MilestoneProgress, ProgressStatus, in_progress, is_completed, progress_ok,
  progress_ids, active, EducationEnrollment, enrollment_ok,
}
use axcalib.Education.Integrity.Frontier.{
  closed, closed-IsWithin, closed-replace, completed_ids-replace, unlock_items-closed,
}
use axcalib.Education.Progress.{completed_ids, replace_progress, unlock_dependents}
use axcalib.Education.Actions.{
  ReviewContext, start, bind_project, with_progress, recorded, record_requirement, or_now,
  progress_of, may_start, may_bind,
}
use axcalib.Education.Integrity.{
  progress_ids-replace, progress_ok-replace, progress_of-ok, progress_ok-status,
  progress_ok-recorded,
}
use axcalib.Education.Integrity.Unlocking.{IsUnlocking, unlock_dependents-IsUnlocking}
use axcalib.Education.History.{saved}
use axcalib.Education.Integrity.Sound.{IsSound, length-snoc}

-- What the transactions make of an active enrollment.
abbrev activated : EducationEnrollment → List MilestoneProgress → String → EducationEnrollment
activated e ps event_id = record e {
  status = active;
  milestones = ps;
  audit_event_ids = e.audit_event_ids ++ event_id ∷ [];
}

-- A candidate with valid items that have the same IDs, and whose locked items wait.
abbrev pub IsActivated : List Placed → EducationEnrollment → String → EducationEnrollment → Type 0
IsActivated specs e event_id c =
    (ps : List MilestoneProgress) × (all progress_ok ps ≡ true)
    × (progress_ids ps ≡ progress_ids e.milestones)
    × (closed (completed_ids ps) specs ps ≡ true)
    × (c ≡ activated e ps event_id)

pub IsActivated-IsSound :
    (program : EducationProgram) (e c : EducationEnrollment) (event_id : String) (t : ℕ)
    → IsSound program e
    → IsActivated (milestones program) e event_id c
    → IsSound program (saved t c)
unfolding enrollment_ok
IsActivated-IsSound program e c event_id t s (ps, v, same, l, q) =
    subst (λ x. IsSound program (saved t x)) (sym q)
      (record {
        valid = ground (arith, s.valid, v, ap unique_texts same);
        aligned = same ∙ s.aligned;
        locking = l;
        ready = λ h. ground (arith, h);
        decisions = s.decisions;
        audited = ground (arith, length-snoc e.audit_event_ids event_id, s.audited);
      })

may_start-open : (s : ProgressStatus) → may_start s ≡ true → is_completed s ≡ false
may_start-open s h = ground arith

may_bind-open : (s : ProgressStatus) → may_bind s ≡ true → is_completed s ≡ false
may_bind-open s h = ground arith

pub valid-items :
    (e : EducationEnrollment) → enrollment_ok e ≡ true → all progress_ok e.milestones ≡ true
unfolding enrollment_ok
valid-items e h = ground arith

-- An item that was not completed changes, to a status that is not `completed`.
with_progress-IsActivated :
    (specs : List Placed) (e : EducationEnrollment) (event_id : String) (p : MilestoneProgress)
    (project : Option String) (since : Option ℕ)
    → all progress_ok e.milestones ≡ true
    → closed (completed_ids e.milestones) specs e.milestones ≡ true
    → progress_ok p ≡ true
    → is_completed p.status ≡ false
    → IsActivated specs e event_id (
        with_progress e
          (record p { status = in_progress; bound_project_id = project; started_at = since })
          event_id)
unfolding with_progress
with_progress-IsActivated specs e event_id p project since a l v open_ =
    let u : MilestoneProgress = record p {
      status = in_progress;
      bound_project_id = project;
      started_at = since;
    } in
    (
      replace_progress e.milestones u,
      progress_ok-replace e.milestones u
          (progress_ok-status p in_progress project since v open_ refl) a,
      progress_ids-replace e.milestones u,
      closed-IsWithin (completed_ids (replace_progress e.milestones u)) (completed_ids e.milestones)
          specs (replace_progress e.milestones u) (completed_ids-replace e.milestones u refl)
          (closed-replace (completed_ids e.milestones) specs e.milestones u refl l),
      refl,
    )

pub start-IsActivated :
    (specs : List Placed) (now : ℕ) (event_id milestone_id : String) (expected : Option ℕ)
    (e c : EducationEnrollment)
    → start now event_id e expected milestone_id ≡ ok c
    → all progress_ok e.milestones ≡ true
    → closed (completed_ids e.milestones) specs e.milestones ≡ true
    → IsActivated specs e event_id c
unfolding start
start-IsActivated specs now event_id milestone_id expected e c h a l =
    elim (Result-cases (progress_of milestone_id e.milestones)) [
      | inl (x, f) ↦ absurd (ground (arith, f))
      | inr (p, f) ↦
          let changed : with_progress e
                (record p { status = in_progress; started_at = or_now p.started_at now }) event_id
              ≡ c =
            ground (arith, f) in
          subst (IsActivated specs e event_id) changed (
            with_progress-IsActivated specs e event_id p p.bound_project_id
              (or_now p.started_at now) a l (progress_of-ok milestone_id e.milestones p f a)
              (may_start-open p.status (ground (arith, f))))
    ]

pub bind_project-IsActivated :
    (specs : List Placed) (now : ℕ) (event_id project_id : String) (program : EducationProgram)
    (m : MilestoneSpec) (context : ReviewContext) (organization_id : Option String)
    (e c : EducationEnrollment)
    → bind_project now event_id e program m context project_id organization_id ≡ ok c
    → all progress_ok e.milestones ≡ true
    → closed (completed_ids e.milestones) specs e.milestones ≡ true
    → IsActivated specs e event_id c
unfolding bind_project
bind_project-IsActivated specs now event_id project_id program m context organization_id e c h a l =
    elim (Result-cases (progress_of m.milestone_id e.milestones)) [
      | inl (x, f) ↦ absurd (ground (arith, f))
      | inr (p, f) ↦
          let changed : with_progress e
                (record p {
                  bound_project_id = some project_id;
                  status = in_progress;
                  started_at = or_now p.started_at now;
                })
                event_id
              ≡ c =
            ground (arith, f) in
          subst (IsActivated specs e event_id) changed (
            with_progress-IsActivated specs e event_id p (some project_id) (or_now p.started_at now)
              a l (progress_of-ok m.milestone_id e.milestones p f a)
              (may_bind-open p.status (ground (arith, f))))
    ]

record_locking :
    (ps : List MilestoneProgress) (program : EducationProgram) (qs : List MilestoneProgress)
    → unlock_dependents ps program ≡ some qs
    → IsUnlocking ps qs
    → closed (completed_ids qs) (milestones program) qs ≡ true
unfolding unlock_dependents
record_locking ps program qs h u =
    subst (λ done. closed done (milestones program) qs ≡ true) (sym u.same_completed)
      (unlock_items-closed (completed_ids ps) (milestones program) ps qs h)

pub record_requirement-IsActivated :
    (now : ℕ) (event_id : String) (program : EducationProgram) (m : MilestoneSpec)
    (r : RequirementResult) (e c : EducationEnrollment)
    → record_requirement now event_id e program m r ≡ ok c
    → all progress_ok e.milestones ≡ true
    → IsActivated (milestones program) e event_id c
unfolding record_requirement
record_requirement-IsActivated now event_id program m r e c h a =
    elim (Result-cases (progress_of m.milestone_id e.milestones)) [
      | inl (x, f) ↦ absurd (ground (arith, f))
      | inr (p, f) ↦
          let ps = replace_progress e.milestones (recorded now r p m) in
          elim (Option-cases (unlock_dependents ps program)) [
            | inl g ↦ absurd (ground (arith, f, g))
            | inr (qs, g) ↦
                let u = unlock_dependents-IsUnlocking ps program qs g in
                (
                  qs,
                  u.still_ok (
                      progress_ok-replace e.milestones (recorded now r p m)
                        (progress_ok-recorded now r p m
                          (progress_of-ok m.milestone_id e.milestones p f a) (ground (arith, f)))
                        a),
                  u.same_ids ∙ progress_ids-replace e.milestones (recorded now r p m),
                  record_locking ps program qs g u,
                  sym (ground (arith, f, g)),
                )
          ]
    ]
