-- ===== src/Education/Stores/Content.antt =====
-- What `EducationEnrollment.model_validate` checks of an enrollment that is read from its file
-- (src/axcalib/schemas/education.py): patterns, lengths and bounds of the fields, then the
-- validators. The digits of the regular expressions (`\d`) are an argument, and so is what counts
-- for 100 points.
use Prim.Native.Char.{code}
use axcalib.Prelude.{
  ℕ, zero, suc, ◌*◌, String, Bool, true, false, ◌&&◌, ◌||◌, all, leb, nat_beq, if◌then◌else◌,
}
use axcalib.Identifiers.{is_safe_name}
use axcalib.Education.Enrollment.{
  RequirementResult, MilestoneProgress, ProgramRef, EducationEnrollment, text_within, decision_ok,
  enrollment_ok,
}

abbrev is_hex : ℕ → Bool
is_hex c = (leb b'a' c && leb c b'f') || (leb b'0' c && leb c b'9')

-- `^[a-f0-9]{64}$`, from a number of characters on.
hex_of_length : ℕ → String → Bool
hex_of_length zero String.[] = true
hex_of_length (suc n) String.[] = false
hex_of_length zero (String.◌∷◌ c s) = false
hex_of_length (suc n) (String.◌∷◌ c s) = is_hex (code c) && hex_of_length n s

-- `[0-9A-Za-z.-]`
abbrev is_label_char : ℕ → Bool
is_label_char c =
    (leb b'0' c && leb c b'9')
    || ((leb b'A' c && leb c b'Z')
        || ((leb b'a' c && leb c b'z') || (nat_beq c b'.' || nat_beq c b'-')))

label_chars : String → Bool
label_chars String.[] = true
label_chars (String.◌∷◌ c s) = is_label_char (code c) && label_chars s

abbrev is_label : String → Bool
is_label String.[] = false
is_label (String.◌∷◌ c s) = label_chars (String.◌∷◌ c s)

module _ (is_digit : ℕ → Bool) where
  -- The rest of `^\d+\.\d+\.\d+(?:-[0-9A-Za-z.-]+)?$` where so many points are to come, and whether
  -- the number has a digit.
  semver_from : ℕ → Bool → String → Bool
  semver_from points digits String.[] = nat_beq points 0 && digits
  semver_from zero digits (String.◌∷◌ c s) =
      let rest = semver_from zero true s in
      if is_digit (code c) then rest else digits && (nat_beq (code c) b'-' && is_label s)
  semver_from (suc points) digits (String.◌∷◌ c s) =
      let same = semver_from (suc points) true s in
      let behind = semver_from points false s in
      if is_digit (code c) then same else digits && (nat_beq (code c) b'.' && behind)

  is_semver : String → Bool
  unfolding semver_from
  is_semver s = semver_from 2 false s

  module _ (full : ℕ) where
    ref_fields_ok : ProgramRef → Bool
    ref_fields_ok r =
        is_safe_name r.program_id && (is_semver r.version && hex_of_length 64 r.sha256)

    result_fields_ok : RequirementResult → Bool
    result_fields_ok r = is_safe_name r.requirement_id && leb r.points_awarded (10 * full)

    progress_fields_ok : MilestoneProgress → Bool
    progress_fields_ok p =
        is_safe_name p.milestone_id
        && (is_safe_name p.level_id
            && (text_within 300 p.goal_title && all result_fields_ok p.requirement_results))

    enrollment_fields_ok : EducationEnrollment → Bool
    enrollment_fields_ok e =
        is_safe_name e.enrollment_id
        && (text_within 300 e.learner_ref
            && (ref_fields_ok e.program
                && (leb 1 e.revision
                    && (all progress_fields_ok e.milestones
                        && (all (λ n. leb 1 n) e.notifications
                            && all decision_ok e.completion_decisions)))))

    -- `EducationEnrollment.model_validate` accepts the content.
    unfoldable pub content_ok : EducationEnrollment → Bool
    unfolding enrollment_fields_ok progress_fields_ok result_fields_ok ref_fields_ok is_semver
        semver_from hex_of_length label_chars
    content_ok e = enrollment_fields_ok e && enrollment_ok e
