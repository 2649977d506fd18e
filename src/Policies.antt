-- ===== src/Policies.antt =====
-- Review policies and their registry (src/axcalib/policies/registry.py, with the enumerations of
-- src/axcalib/schemas/domain.py). The canonical digest of a policy is an argument; the patterns and
-- lengths of single fields are not modelled.
pub mod Frozen
pub mod Builtin
mod Examples
use axcalib.Prelude.{
  String, Bool, true, false, not, ◌&&◌, ◌||◌, Option, none, some, List, [], ◌∷◌, map, all, any,
  has_text, ◌==◌, string_eq, option_eq, if◌then◌else◌,
}
use axcalib.Exec.{Result, ok, err}

pub data ReviewStage : Type 0 where
  registration completion : ReviewStage

pub data AgentRecommendation : Type 0 where
  pass needs_changes reject accept not_accept : AgentRecommendation

pub data ReviewPolicyStatus : Type 0 where
  draft offline_reference published retired : ReviewPolicyStatus

pub data ReferenceAuthority : Type 0 where
  normative guidance historical : ReferenceAuthority

pub record ReviewReference : Type 0 where
  pub reference_id : String
  pub title : String
  pub authority : ReferenceAuthority
  pub uri : String
  pub version : String
  pub sha256 : Option String

pub record CriterionDefinition : Type 0 where
  pub criterion_id : String
  pub title : String
  pub required_tags : List String
  pub follow_up : String
  pub critical : Bool
  pub blocking_recommendation : Option AgentRecommendation

pub record StageReviewPolicy : Type 0 where
  pub stage : ReviewStage
  pub rubric_id : String
  pub rubric_version : String
  pub checklist_refs : List String
  pub references : List ReviewReference
  pub criteria : List CriterionDefinition
  pub all_met_recommendation : AgentRecommendation
  pub gap_recommendation : AgentRecommendation

pub record ReviewPolicyPack : Type 0 where
  pub policy_id : String
  pub version : String
  pub status : ReviewPolicyStatus
  pub owner : String
  pub approval_ref : Option String
  pub description : String
  pub registration : StageReviewPolicy
  pub completion : StageReviewPolicy

abbrev distinct : List String → Bool
distinct [] = true
distinct (x ∷ xs) = not (any (λ y. y == x) xs) && distinct xs

-- The recommendations that a stage may give.
abbrev pub allowed : ReviewStage → AgentRecommendation → Bool
allowed registration pass = true
allowed registration needs_changes = true
allowed registration reject = true
allowed registration _ = false
allowed completion accept = true
allowed completion needs_changes = true
allowed completion not_accept = true
allowed completion _ = false

abbrev blocking_ok : ReviewStage → Option AgentRecommendation → Bool
blocking_ok stage none = true
blocking_ok stage (some r) = allowed stage r

-- `validate_stage_semantics`
unfoldable pub stage_policy_ok : StageReviewPolicy → Bool
stage_policy_ok p =
    distinct (map (λ (c : CriterionDefinition). c.criterion_id) p.criteria)
    && (distinct (map (λ (r : ReviewReference). r.reference_id) p.references)
        && (allowed p.stage p.all_met_recommendation
            && (allowed p.stage p.gap_recommendation
                && all (λ (c : CriterionDefinition). blocking_ok p.stage c.blocking_recommendation)
                    p.criteria)))

abbrev is_registration : ReviewStage → Bool
is_registration registration = true
is_registration completion = false

abbrev approval_ok : ReviewPolicyStatus → Option String → Bool
approval_ok published ref = has_text ref
approval_ok _ ref = true

-- `validate_gate_binding`, with the validation of both stages.
unfoldable pub pack_ok : ReviewPolicyPack → Bool
pack_ok p =
    (stage_policy_ok p.registration && stage_policy_ok p.completion)
    && (is_registration p.registration.stage
        && (not (is_registration p.completion.stage) && approval_ok p.status p.approval_ref))

-- `for_stage`
abbrev pub for_stage : ReviewStage → ReviewPolicyPack → StageReviewPolicy
for_stage registration p = p.registration
for_stage completion p = p.completion

-- `ReviewProfileRef`
pub record ReviewProfileRef : Type 0 where
  pub policy_id : String
  pub version : String
  pub sha256 : String
  pub status : ReviewPolicyStatus
  pub source_uri : String

pub record ResolvedReviewProfile : Type 0 where
  pub ref : ReviewProfileRef
  pub policy : ReviewPolicyPack

pub data ProfileError : Type 0 where
  collision not_registered hash_mismatch not_selectable : ProfileError

-- `ReviewProfileRegistry._profiles`, by policy ID and version.
abbrev pub Profiles : Type 0
Profiles = String → String → Option ResolvedReviewProfile

abbrev pub set_profile : String → String → ResolvedReviewProfile → Profiles → Profiles
set_profile id version x ps i v = if id == i && version == v then some x else ps i v

abbrev pub selectable : Bool → ReviewPolicyStatus → Bool
selectable allow published = true
selectable allow offline_reference = allow
selectable allow _ = false

abbrev hash_ok : Option String → String → Bool
hash_ok none sha256 = true
hash_ok (some expected) sha256 = expected == "" || sha256 == expected

module _ (digest : ReviewPolicyPack → String) where
  abbrev pub resolved_profile : ReviewPolicyPack → String → ResolvedReviewProfile
  resolved_profile p uri = record {
    ref = record {
      policy_id = p.policy_id;
      version = p.version;
      sha256 = digest p;
      status = p.status;
      source_uri = uri;
    };
    policy = p;
  }

  abbrev pub register_over :
      Option ResolvedReviewProfile
      → ResolvedReviewProfile
      → Profiles
      → Result ProfileError ResolvedReviewProfile × Profiles
  register_over none x ps = (ok x, set_profile x.ref.policy_id x.ref.version x ps)
  register_over (some y) x ps =
      if not (y.ref.sha256 == x.ref.sha256)
      then (err collision, ps)
      else (ok x, set_profile x.ref.policy_id x.ref.version x ps)

  -- `register`
  unfoldable pub register :
      ReviewPolicyPack → String → Profiles → Result ProfileError ResolvedReviewProfile × Profiles
  register p uri ps = register_over (ps p.policy_id p.version) (resolved_profile p uri) ps

  -- A sequence of registrations, with those that are refused.
  unfoldable pub registrations : List (ReviewPolicyPack × String) → Profiles → Profiles
  registrations [] ps = ps
  registrations ((p, uri) ∷ rest) ps = registrations rest (register p uri ps).1

abbrev pub resolve_found :
    Option ResolvedReviewProfile → Option String → Bool → Result ProfileError ResolvedReviewProfile
resolve_found none expected allow = err not_registered
resolve_found (some x) expected allow =
    if not (hash_ok expected x.ref.sha256)
    then err hash_mismatch
    else if selectable allow x.policy.status
    then ok x
    else err not_selectable

-- `resolve` on the two parts of a selector.
unfoldable pub resolve :
    String → String → Option String → Bool → Profiles → Result ProfileError ResolvedReviewProfile
resolve id version expected allow ps = resolve_found (ps id version) expected allow

-- `resolve_ref`
unfoldable pub resolve_ref :
    ReviewProfileRef → Bool → Profiles → Result ProfileError ResolvedReviewProfile
unfolding resolve
resolve_ref r allow ps = resolve r.policy_id r.version (some r.sha256) allow ps
