-- ===== src/Coordinator/Steps/Ensure.antt =====
-- `_ensure_dossier` of src/axcalib/runtime/transactions.py, run once and run again.
use axcalib.Prelude.{
  ℕ, ◌+◌, ◌≤◌, String, ◌≡◌, refl, ◌⊎◌, inl, inr, Bool, true, false, some, arith, eq_iff, eq_refl,
  nat_eq, string_eq, option_eq, if◌then◌else◌,
}
use axcalib.Exec.{ok}
use axcalib.Files.{Files, write}
use axcalib.Dossier
use axcalib.Dossier.{Dossier, DossierValue, dump, semantic}
use axcalib.Plans.{Plan, Operation, create, update, lists_id, validate_plan}
use axcalib.Coordinator.Steps.{
  verify_target, existing_target, saved_target, update_current, ensure_operation, ensure_dossier,
}

-- What `validate_plan` has checked.
pub record IsValidPlan (p : Plan) : Type 0 where
  pub project : p.candidate_dossier.project_id ≡ p.project_id
  pub lists_event : lists_id p.audit_event.event_id p.candidate_dossier.audit_event_ids ≡ true
  pub created : p.operation ≡ create → (p.candidate_dossier.revision ≡ 1) × (p.target_revision ≡ 1)
  pub updated : p.operation ≡ update → p.target_revision ≡ p.base_revision + 1

pub validate_plan-IsValidPlan : (p q : Plan) → validate_plan p ≡ ok q → IsValidPlan p
unfolding validate_plan
validate_plan-IsValidPlan p q h = ground (arith, eq_iff p.candidate_dossier.project_id p.project_id)

Operation-cases : (o : Operation) → (o ≡ create) ⊎ (o ≡ update)
Operation-cases create = inl refl
Operation-cases update = inr refl

module _ (digest : DossierValue → String) where
  -- Where a created or saved dossier stands, it is a target.
  verify_target-candidate :
      (p : Plan) (now : ℕ)
      → IsValidPlan p
      → verify_target digest
          (record p.candidate_dossier { revision = p.target_revision; updated_at = now })
          p
        ≡ ok tt
  unfolding verify_target
  verify_target-candidate p now v =
      ground (arith, eq_refl (digest (semantic p.candidate_dossier p.target_revision)))

  ensure_twice_create :
      (now now' : ℕ) (p : Plan) (files : Files Dossier) (d : Dossier) (b : Bool)
      → IsValidPlan p
      → p.operation ≡ create
      → (ensure_operation digest create now p files).0 ≡ ok (d, b)
      → ensure_operation digest create now' p (ensure_operation digest create now p files).1
        ≡ (ok (d, false), (ensure_operation digest create now p files).1)
  unfolding ensure_operation Dossier.create Dossier.load existing_target verify_target write
  ensure_twice_create now now' p files d b v c h = ground (
    arith,
    eq_refl p.project_id,
    eq_iff d.project_id p.project_id,
    eq_refl (digest (semantic p.candidate_dossier p.target_revision)),
  )

  -- The dossier that `_ensure_dossier` found, and what it did with it.
  ensure_twice_update :
      (now now' : ℕ) (p : Plan) (files : Files Dossier) (d : Dossier) (b : Bool)
      → IsValidPlan p
      → p.operation ≡ update
      → (ensure_operation digest update now p files).0 ≡ ok (d, b)
      → ensure_operation digest update now' p (ensure_operation digest update now p files).1
        ≡ (ok (d, false), (ensure_operation digest update now p files).1)
  unfolding ensure_operation Dossier.load Dossier.save saved_target update_current verify_target
      write
  ensure_twice_update now now' p files d b v c h = ground (
    arith,
    eq_refl p.project_id,
    eq_iff p.candidate_dossier.project_id p.project_id,
    eq_refl p.candidate_dossier.project_id,
  )

  -- Once `_ensure_dossier` has succeeded for a valid plan, a second run at any time finds the
  -- same dossier and writes nothing.
  pub ensure_dossier_twice :
      (now now' : ℕ) (p : Plan) (files : Files Dossier) (d : Dossier) (b : Bool)
      → IsValidPlan p
      → (ensure_dossier digest now p files).0 ≡ ok (d, b)
      → ensure_dossier digest now' p (ensure_dossier digest now p files).1
        ≡ (ok (d, false), (ensure_dossier digest now p files).1)
  unfolding ensure_dossier
  ensure_dossier_twice now now' p files d b v h = elim (Operation-cases p.operation) [
    | inl e ↦ simp e (ensure_twice_create now now' p files d b v e (simp e at h))
    | inr e ↦ simp e (ensure_twice_update now now' p files d b v e (simp e at h))
  ]

  -- What is left is the plan's target: at its revision it has the candidate's content.
  ensure_target_create :
      (now : ℕ) (p : Plan) (files : Files Dossier) (d : Dossier) (b : Bool)
      → IsValidPlan p
      → p.operation ≡ create
      → (ensure_operation digest create now p files).0 ≡ ok (d, b)
      → ((ensure_operation digest create now p files).1 p.project_id ≡ some d)
        × (lists_id p.audit_event.event_id d.audit_event_ids ≡ true)
        × (p.target_revision ≤ d.revision)
  unfolding ensure_operation Dossier.create Dossier.load existing_target verify_target write
  ensure_target_create now p files d b v c h =
      ground (arith, eq_refl p.project_id, eq_iff d.project_id p.project_id)

  ensure_target_update :
      (now : ℕ) (p : Plan) (files : Files Dossier) (d : Dossier) (b : Bool)
      → IsValidPlan p
      → p.operation ≡ update
      → (ensure_operation digest update now p files).0 ≡ ok (d, b)
      → ((ensure_operation digest update now p files).1 p.project_id ≡ some d)
        × (lists_id p.audit_event.event_id d.audit_event_ids ≡ true)
        × (p.target_revision ≤ d.revision)
  unfolding ensure_operation Dossier.load Dossier.save saved_target update_current verify_target
      write
  ensure_target_update now p files d b v c h =
      ground (arith, eq_refl p.project_id, eq_iff p.candidate_dossier.project_id p.project_id)

  -- A success of `_ensure_dossier` for a valid plan leaves the returned dossier on disk, at
  -- the plan's target revision or a later one, and it names the plan's audit event.
  pub ensure_dossier_target :
      (now : ℕ) (p : Plan) (files : Files Dossier) (d : Dossier) (b : Bool)
      → IsValidPlan p
      → (ensure_dossier digest now p files).0 ≡ ok (d, b)
      → ((ensure_dossier digest now p files).1 p.project_id ≡ some d)
        × (lists_id p.audit_event.event_id d.audit_event_ids ≡ true)
        × (p.target_revision ≤ d.revision)
  unfolding ensure_dossier
  ensure_dossier_target now p files d b v h = elim (Operation-cases p.operation) [
    | inl e ↦ simp e (ensure_target_create now p files d b v e (simp e at h))
    | inr e ↦ simp e (ensure_target_update now p files d b v e (simp e at h))
  ]

  -- At another time the same happens, but for the time that a saved dossier keeps.
  abbrev pub restamp : Operation → Bool → ℕ → Dossier → Dossier
  restamp create b now d = d
  restamp update b now d = if b then record d { updated_at = now } else d

  ensure_time_create :
      (now now' : ℕ) (p : Plan) (files : Files Dossier) (d : Dossier) (b : Bool)
      → (ensure_operation digest create now p files).0 ≡ ok (d, b)
      → (ensure_operation digest create now' p files).0 ≡ ok (d, b)
  unfolding ensure_operation Dossier.create existing_target
  ensure_time_create now now' p files d b h = ground arith

  ensure_time_update :
      (now now' : ℕ) (p : Plan) (files : Files Dossier) (d : Dossier) (b : Bool)
      → (ensure_operation digest update now p files).0 ≡ ok (d, b)
      → (ensure_operation digest update now' p files).0
        ≡ ok (if b then record d { updated_at = now' } else d, b)
  unfolding ensure_operation Dossier.load Dossier.save saved_target update_current verify_target
  ensure_time_update now now' p files d b h = ground arith

  pub ensure_dossier_time :
      (now now' : ℕ) (p : Plan) (files : Files Dossier) (d : Dossier) (b : Bool)
      → (ensure_dossier digest now p files).0 ≡ ok (d, b)
      → (ensure_dossier digest now' p files).0 ≡ ok (restamp p.operation b now' d, b)
  unfolding ensure_dossier
  ensure_dossier_time now now' p files d b h = elim (Operation-cases p.operation) [
    | inl e ↦ simp e (ensure_time_create now now' p files d b (simp e at h))
    | inr e ↦ simp e (ensure_time_update now now' p files d b (simp e at h))
  ]
