-- ===== src/Policies/Examples.antt =====
-- The code's own policy, registered and then published anew under its version.
use axcalib.Prelude.{String, ◌≡◌, refl, true, none, List, [], ◌∷◌}
use axcalib.Exec.{ok}
use axcalib.Policies.{
  ReviewPolicyPack, ResolvedReviewProfile, Profiles, resolved_profile, register, registrations,
  resolve_ref, pack_ok, stage_policy_ok,
}
use axcalib.Policies.Builtin.{builtin_default_policy}
use axcalib.Policies.Frozen.{resolve_ref-frozen}

-- A digest that reads the owner alone.
abbrev digest : ReviewPolicyPack → String
digest p = p.owner

abbrev policy : ReviewPolicyPack
policy = builtin_default_policy

abbrev changed : ReviewPolicyPack
changed = record policy { owner = "someone else" }

abbrev no_profiles : Profiles
no_profiles id version = none

abbrev registered : Profiles
registered = (register digest policy "builtin" no_profiles).1

abbrev later : List (ReviewPolicyPack × String)
later = (changed, "a.yaml") ∷ (policy, "b.yaml") ∷ []

other_owner : (digest changed ≡ digest policy) → changed ≡ policy
other_owner h = absurd (cc (h))

resolve_ref-frozen_example :
    (y : ResolvedReviewProfile) × (resolve_ref
        (resolved_profile digest policy "builtin").ref
        true
        (registrations digest later registered)
      ≡ ok y)
    × (y.policy ≡ policy)
unfolding register
resolve_ref-frozen_example =
    resolve_ref-frozen digest policy "builtin" no_profiles registered
      (resolved_profile digest policy "builtin") later true (other_owner, ((λ h. refl), tt)) refl
      refl

-- The code's own policy passes its validators.
builtin_default_policy-ok : pack_ok builtin_default_policy ≡ true
unfolding pack_ok stage_policy_ok
builtin_default_policy-ok = refl
