-- ===== src/Education/Stores.antt =====
-- The repositories of programs and of enrollments (src/axcalib/programs/repository.py). A file is
-- read back as what was written; the canonical digest of a program is an argument.
mod Content
pub mod Laws
unfoldable pub use Content.*
use axcalib.Prelude.{
  ℕ, ◌+◌, String, ◌≡◌, refl, sym, ◌∙◌, ap, subst, Bool, true, false, not, ◌&&◌, ◌||◌, Option, none,
  some, ◌==◌, string_eq, nat_beq, ◌+++◌, if◌then◌else◌, arith, eq_iff, eq_refl, Bool-cases,
  Option-cases, inl, inr,
}
use axcalib.Exec.{Result, ok, err}
use axcalib.Files.{Files, write, write_self}
use axcalib.Identifiers.{is_safe_name}
use axcalib.Education.Schema.{EducationProgram}
use axcalib.Education.Enrollment.{ProgramRef, EducationEnrollment}
use axcalib.Education.History.{saved}

pub data RepositoryError : Type 0 where
  invalid_selector version_conflict not_found content_mismatch : RepositoryError
  invalid_enrollment_id already_exists revision_conflict invalid_content : RepositoryError

-- The file of a program's version, and that of an enrollment.
abbrev pub program_path : String → String → String
program_path program_id version = program_id +++ "@" +++ version +++ ".program.yaml"

abbrev pub enrollment_path : String → String
enrollment_path enrollment_id = "AXE-" +++ enrollment_id +++ ".enrollment.yaml"

module _ (digest : EducationProgram → String) where
  abbrev pub ref_of : EducationProgram → ProgramRef
  ref_of p = record { program_id = p.program_id; version = p.version; sha256 = digest p }

  abbrev pub publish_over :
      Option EducationProgram
      → EducationProgram
      → Files EducationProgram
      → Result RepositoryError ProgramRef × Files EducationProgram
  publish_over none p files = (ok (ref_of p), write (program_path p.program_id p.version) p files)
  publish_over (some q) p files =
      if not (digest q == digest p) then (err version_conflict, files) else (ok (ref_of p), files)

  -- `ProgramRepository.publish`
  unfoldable pub publish :
      EducationProgram
      → Files EducationProgram
      → Result RepositoryError ProgramRef × Files EducationProgram
  publish p files =
      if not (is_safe_name p.program_id && is_safe_name p.version)
      then (err invalid_selector, files)
      else publish_over (files (program_path p.program_id p.version)) p files

  abbrev pub resolve_found :
      String
      → String
      → Option EducationProgram
      → Result RepositoryError (EducationProgram × ProgramRef)
  resolve_found program_id version none = err not_found
  resolve_found program_id version (some p) =
      if not (p.program_id == program_id && p.version == version)
      then err content_mismatch
      else ok (p, ref_of p)

  -- `ProgramRepository.resolve` on the two parts of a selector.
  unfoldable pub resolve :
      String
      → String
      → Files EducationProgram
      → Result RepositoryError (EducationProgram × ProgramRef)
  resolve program_id version files =
      if not (is_safe_name program_id && is_safe_name version)
      then err invalid_selector
      else resolve_found program_id version (files (program_path program_id version))

-- `EnrollmentRepository.create`
unfoldable pub create :
    EducationEnrollment
    → Files EducationEnrollment
    → Result RepositoryError (Unit {0}) × Files EducationEnrollment
create e files =
    if not (is_safe_name e.enrollment_id)
    then (err invalid_enrollment_id, files)
    else elim (files (enrollment_path e.enrollment_id)) [
      | none ↦ (ok tt, write (enrollment_path e.enrollment_id) e files)
      | some x ↦ (err already_exists, files)
    ]

module _ (is_digit : ℕ → Bool) (full : ℕ) where
  abbrev pub load_found :
      String → Option EducationEnrollment → Result RepositoryError EducationEnrollment
  load_found enrollment_id none = err not_found
  load_found enrollment_id (some e) =
      if not (content_ok is_digit full e)
      then err invalid_content
      else if not (e.enrollment_id == enrollment_id)
      then err content_mismatch
      else ok e

  -- `EnrollmentRepository.load`
  unfoldable pub load :
      String → Files EducationEnrollment → Result RepositoryError EducationEnrollment
  load enrollment_id files =
      if not (is_safe_name enrollment_id)
      then err invalid_enrollment_id
      else load_found enrollment_id (files (enrollment_path enrollment_id))

  abbrev pub save_over :
      ℕ
      → EducationEnrollment
      → ℕ
      → Result RepositoryError EducationEnrollment
      → Files EducationEnrollment
      → Result RepositoryError EducationEnrollment × Files EducationEnrollment
  save_over now e expected (err x) files = (err x, files)
  save_over now e expected (ok current) files =
      if not (nat_beq current.revision expected) then (err revision_conflict, files) else (
        ok (record e { revision = expected + 1; updated_at = now }),
        write (enrollment_path e.enrollment_id)
            (record e { revision = expected + 1; updated_at = now }) files,
      )

  -- `EnrollmentRepository.save`
  unfoldable pub save :
      ℕ
      → EducationEnrollment
      → ℕ
      → Files EducationEnrollment
      → Result RepositoryError EducationEnrollment × Files EducationEnrollment
  save now e expected files = save_over now e expected (load e.enrollment_id files) files
