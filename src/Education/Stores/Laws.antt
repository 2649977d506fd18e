-- ===== src/Education/Stores/Laws.antt =====
-- What the repositories hold behind a call (src/axcalib/programs/repository.py).
use axcalib.Prelude.{
  ℕ, ◌+◌, String, ◌≡◌, Bool, true, sym, ◌∙◌, ap, some, string_eq, nat_beq, arith, eq_iff,
  Bool-cases, Option-cases, inl, inr,
}
use axcalib.Exec.{Result, ok, err}
use axcalib.Files.{Files, write, write_self}
use axcalib.Identifiers.{is_safe_name}
use axcalib.Education.Schema.{EducationProgram}
use axcalib.Education.Enrollment.{EducationEnrollment}
use axcalib.Education.Stores.{
  RepositoryError, revision_conflict, content_ok, program_path, enrollment_path, publish, load,
  save, save_over,
}

module _ (is_digit : ℕ → Bool) (full : ℕ) where
  saved-cases :
      (now : ℕ) (e u : EducationEnrollment) (expected : ℕ) (files after : Files EducationEnrollment)
      (r : Result RepositoryError EducationEnrollment)
      → save_over is_digit full now e expected r files ≡ (ok u, after)
      → (u ≡ record e { revision = expected + 1; updated_at = now })
        × (after ≡ write (enrollment_path e.enrollment_id) u files)
  saved-cases now e u expected files after (err x) h = absurd (cc (h))
  saved-cases now e u expected files after (ok c) h =
      elim (Bool-cases (nat_beq c.revision expected)) [
        | inl k ↦
            let g = rw k at h in
            let same : record e { revision = expected + 1; updated_at = now } ≡ u = cc (g) in
            (
              sym same,
              sym (
                    ap
                      (λ (x : Result RepositoryError EducationEnrollment
                          × Files EducationEnrollment).
                        x.1)
                      g)
                  ∙ ap
                      (λ (x : EducationEnrollment). write (enrollment_path e.enrollment_id) x files)
                      same,
            )
        | inr k ↦ absurd (cc (rw k at h))
      ]

  module _ (now : ℕ) (e u : EducationEnrollment) (expected : ℕ)
      (files after : Files EducationEnrollment) (safe : is_safe_name e.enrollment_id ≡ true)
      (saved_ : save is_digit full now e expected files ≡ (ok u, after)) where
    saved-parts :
        (u ≡ record e { revision = expected + 1; updated_at = now })
        × (after (enrollment_path e.enrollment_id) ≡ some u)
    unfolding save
    saved-parts =
        let (same, left) =
          saved-cases now e u expected files after (load is_digit full e.enrollment_id files)
            saved_ in
        (
          same,
          ap (λ (f : Files EducationEnrollment). f (enrollment_path e.enrollment_id)) left
              ∙ write_self (enrollment_path e.enrollment_id) u files,
        )

    save-load :
        content_ok is_digit full u ≡ true
        → (load is_digit full e.enrollment_id after ≡ ok u) × (u.revision ≡ expected + 1)
    unfolding load
    save-load valid =
        let (same, stands) = saved-parts in
        let named : u.enrollment_id ≡ e.enrollment_id =
          ap (λ (x : EducationEnrollment). x.enrollment_id) same in
        (
          rw (safe, stands)
              (rw valid (ground (arith, named, eq_iff u.enrollment_id e.enrollment_id))),
          ap (λ (x : EducationEnrollment). x.revision) same,
        )

    -- When a save of an enrollment with a safe ID succeeds, and the copy that it returns is
    -- valid, this is loaded back and has the next revision; any save of that ID from the
    -- same expected revision is then a conflict and writes nothing.
    pub save_once :
        (later : ℕ) (d : EducationEnrollment)
        → content_ok is_digit full u ≡ true
        → d.enrollment_id ≡ e.enrollment_id
        → (load is_digit full e.enrollment_id after ≡ ok u)
          × (u.revision ≡ expected + 1)
          × (save is_digit full later d expected after ≡ (err revision_conflict, after))
    unfolding save
    save_once later d valid same =
        let (loaded, raised) = save-load valid in
        let found : load is_digit full d.enrollment_id after ≡ ok u =
          ap (λ (k : String). load is_digit full k after) same ∙ loaded in
        (loaded, raised, rw found (ground (arith, raised)))

module _ (digest : EducationProgram → String) where
  -- A program that was published stays as it is.
  pub publish-keeps :
      (p : EducationProgram) (files : Files EducationProgram) (name : String) (q : EducationProgram)
      → files name ≡ some q
      → (publish digest p files).1 name ≡ some q
  unfolding publish write
  publish-keeps p files name q h =
      elim (Option-cases (files (program_path p.program_id p.version))) [
        | inl e ↦ ground (
          arith,
          e,
          h,
          eq_iff (program_path p.program_id p.version) name,
          ap (λ (k : String). files k),
        )
        | inr (x, e) ↦ ground (arith, e, h)
      ]
