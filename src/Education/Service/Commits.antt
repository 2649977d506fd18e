-- ===== src/Education/Service/Commits.antt =====
-- The calls of the service as steps of the history
-- (`EducationProgramService`, src/axcalib/programs/service.py).
pub mod Permission
use axcalib.Prelude.{ℕ, String, ◌≡◌, Option, string_eq, arith, inl, inr}
use axcalib.Exec.{Result, ok, Result-cases}
use axcalib.Education.Refusal.{Refusal}
use axcalib.Education.Schema.{ReviewRole, EducationProgram}
use axcalib.Education.Enrollment.{EducationEnrollment}
use axcalib.Education.Actions.{progress_of, manual_result, score_result, project_result}
use axcalib.Education.History.{Step, saved, started, bound, recorded_result, decided_on}
use axcalib.Education.Service.{
  ProjectView, Call, start_milestone, record_manual_confirmation, record_score, link_project,
  sync_project_milestone, decide_program_completion, context_of, bound_project, apply,
}

module _ (program : EducationProgram) (sha256 : String)
    (dossiers : String → Result Refusal ProjectView) (full now : ℕ) (event_id : String) where
  manual-Step :
      (t : ℕ) (e c : EducationEnrollment) (expected : Option ℕ)
      (milestone_id requirement_id : String) (actor_id : String) (role : ReviewRole)
      (evidence_ref : String)
      → apply program sha256 dossiers full now event_id
          (record_manual_confirmation milestone_id requirement_id actor_id role evidence_ref)
          e
          expected
        ≡ ok c
      → Step program e (saved t c)
  unfolding apply
  manual-Step t e c expected milestone_id requirement_id actor_id role evidence_ref h =
      elim (Result-cases (context_of program sha256 e milestone_id)) [
        | inl (x, f) ↦ absurd (ground (arith, f))
        | inr (m, f) ↦
            elim (Result-cases (manual_result now m requirement_id actor_id role evidence_ref)) [
              | inl (x, g) ↦ absurd (ground (arith, f, g))
              | inr (r, g) ↦
                  recorded_result now t event_id m r e c (ground (arith, f, g))
                    (ground (arith, f, g))
            ]
      ]

  score-Step :
      (t : ℕ) (e c : EducationEnrollment) (expected : Option ℕ)
      (milestone_id requirement_id : String) (score : ℕ) (actor_id : String) (role : ReviewRole)
      (evidence_ref : String)
      → apply program sha256 dossiers full now event_id
          (record_score milestone_id requirement_id score actor_id role evidence_ref)
          e
          expected
        ≡ ok c
      → Step program e (saved t c)
  unfolding apply
  score-Step t e c expected milestone_id requirement_id score actor_id role evidence_ref h =
      elim (Result-cases (context_of program sha256 e milestone_id)) [
        | inl (x, f) ↦ absurd (ground (arith, f))
        | inr (m, f) ↦
            elim (Result-cases
              (score_result full now m requirement_id score actor_id role evidence_ref)) [
                | inl (x, g) ↦ absurd (ground (arith, f, g))
                | inr (r, g) ↦
                    recorded_result now t event_id m r e c (ground (arith, f, g))
                      (ground (arith, f, g))
              ]
      ]

  link-Step :
      (t : ℕ) (e c : EducationEnrollment) (expected : Option ℕ) (milestone_id project_id : String)
      (organization_id : Option String)
      → apply program sha256 dossiers full now event_id
          (link_project milestone_id project_id organization_id)
          e
          expected
        ≡ ok c
      → Step program e (saved t c)
  unfolding apply
  link-Step t e c expected milestone_id project_id organization_id h =
      elim (Result-cases (context_of program sha256 e milestone_id)) [
        | inl (x, f) ↦ absurd (ground (arith, f))
        | inr (m, f) ↦ elim (Result-cases (dossiers project_id)) [
          | inl (x, g) ↦ absurd (ground (arith, f, g))
          | inr (d, g) ↦
              bound now t event_id project_id m d.context organization_id e c (ground (arith, f, g))
                (ground (arith, f, g))
        ]
      ]

  sync-Step :
      (t : ℕ) (e c : EducationEnrollment) (expected : Option ℕ) (milestone_id : String)
      (organization_id : Option String)
      → apply program sha256 dossiers full now event_id
          (sync_project_milestone milestone_id organization_id)
          e
          expected
        ≡ ok c
      → Step program e (saved t c)
  unfolding apply
  sync-Step t e c expected milestone_id organization_id h =
      elim (Result-cases (context_of program sha256 e milestone_id)) [
        | inl (x, f) ↦ absurd (ground (arith, f))
        | inr (m, f) ↦ elim (Result-cases (progress_of milestone_id e.milestones)) [
          | inl (x, g) ↦ absurd (ground (arith, f, g))
          | inr (p, g) ↦ elim (Result-cases (bound_project p)) [
            | inl (x, k) ↦ absurd (ground (arith, f, g, k))
            | inr (id, k) ↦ elim (Result-cases (dossiers id)) [
              | inl (x, l) ↦ absurd (ground (arith, f, g, k, l))
              | inr (d, l) ↦ elim (Result-cases (project_result now m d.status d.evidence_ref)) [
                | inl (x, o) ↦ absurd (ground (arith, f, g, k, l, o))
                | inr (r, o) ↦
                    recorded_result now t event_id m r e c (ground (arith, f, g, k, l, o))
                      (ground (arith, f, g, k, l, o))
              ]
            ]
          ]
        ]
      ]

  -- Whenever a call of the service returns a candidate, saving it is one step of the history.
  pub apply-Step :
      (call : Call) (t : ℕ) (e c : EducationEnrollment) (expected : Option ℕ)
      → apply program sha256 dossiers full now event_id call e expected ≡ ok c
      → Step program e (saved t c)
  unfolding apply
  apply-Step (start_milestone milestone_id) t e c expected h =
      started now t event_id milestone_id expected e c h
  apply-Step (record_manual_confirmation milestone_id requirement_id actor_id role ref) t e c
        expected h =
      manual-Step t e c expected milestone_id requirement_id actor_id role ref h
  apply-Step (record_score milestone_id requirement_id score actor_id role ref) t e c expected h =
      score-Step t e c expected milestone_id requirement_id score actor_id role ref h
  apply-Step (link_project milestone_id project_id organization_id) t e c expected h =
      link-Step t e c expected milestone_id project_id organization_id h
  apply-Step (sync_project_milestone milestone_id organization_id) t e c expected h =
      sync-Step t e c expected milestone_id organization_id h
  apply-Step (decide_program_completion d reopened) t e c expected h =
      decided_on t event_id expected d reopened e c h
