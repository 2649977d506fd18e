-- ===== src/Policies/Frozen.antt =====
-- Frozen references and the registrations behind them (src/axcalib/policies/registry.py).
use axcalib.Prelude.{
  String, ◌≡◌, refl, sym, ◌∙◌, ap, subst, Bool, true, ◌&&◌, Option, none, some, List, [], ◌∷◌, All,
  ◌==◌, string_eq, arith, eq_iff, eq_refl, Bool-cases, inl, inr,
}
use axcalib.Exec.{Result, ok}
use axcalib.Policies.{
  ReviewPolicyPack, ResolvedReviewProfile, ProfileError, Profiles, set_profile, selectable,
  resolved_profile, resolve_found, register_over, register, registrations, resolve, resolve_ref,
}

module _ (digest : ReviewPolicyPack → String) (p : ReviewPolicyPack) where
  -- The policy stands under its ID and version, with its digest.
  abbrev IsHeld : Profiles → Type 0
  IsHeld ps =
      (y : ResolvedReviewProfile) × (ps p.policy_id p.version ≡ some y)
      × (y.ref.sha256 ≡ digest p)
      × (y.policy ≡ p)

  -- A profile put under a key leaves the others.
  set-IsHeld :
      (x : ResolvedReviewProfile) (id version : String) (ps : Profiles)
      → ((p.policy_id ≡ id) → (p.version ≡ version) → (x.ref.sha256 ≡ digest p) × (x.policy ≡ p))
      → IsHeld ps
      → IsHeld (set_profile id version x ps)
  set-IsHeld x id version ps same (y, h, s, e) =
      elim (Bool-cases (id == p.policy_id && version == p.version)) [
        | inl k ↦
            let (t, g) =
              same (ground (arith, k, eq_iff id p.policy_id))
                (ground (arith, k, eq_iff version p.version)) in
            (x, rw k refl, t, g)
        | inr k ↦ (y, rw k h, s, e)
      ]

  register-IsHeld :
      (q : ReviewPolicyPack) (uri : String) (ps : Profiles) (o : Option ResolvedReviewProfile)
      → (digest q ≡ digest p → q ≡ p)
      → ps q.policy_id q.version ≡ o
      → IsHeld ps
      → IsHeld (register_over digest o (resolved_profile digest q uri) ps).1
  register-IsHeld q uri ps none inj f (y, h, s, e) =
      set-IsHeld (resolved_profile digest q uri) q.policy_id q.version ps
        (λ a b. absurd (cc (f, h, a, b))) (y, h, s, e)
  register-IsHeld q uri ps (some z) inj f (y, h, s, e) =
      elim (Bool-cases (z.ref.sha256 == digest q)) [
        | inl k ↦ rw k (
            set-IsHeld (resolved_profile digest q uri) q.policy_id q.version ps
              (λ a b.
                let here : some z ≡ some y = cc (f, h, a, b) in
                let z_y : z ≡ y = cc (here) in
                let same : digest q ≡ digest p =
                  ground (arith, k, eq_iff z.ref.sha256 (digest q), z_y, s) in
                (same, inj same))
              (y, h, s, e))
        | inr k ↦ rw k (y, h, s, e)
      ]

  -- None of the registrations is a collision with the policy.
  abbrev pub IsApart : List (ReviewPolicyPack × String) → Type 0
  IsApart later = All (λ (r : ReviewPolicyPack × String). digest r.0 ≡ digest p → r.0 ≡ p) later

  registrations-IsHeld :
      (later : List (ReviewPolicyPack × String)) (ps : Profiles)
      → IsApart later
      → IsHeld ps
      → IsHeld (registrations digest later ps)
  unfolding registrations register
  registrations-IsHeld [] ps inj h = h
  registrations-IsHeld ((q, uri) ∷ later) ps inj h =
      registrations-IsHeld later (register digest q uri ps).1 inj.1
        (register-IsHeld q uri ps (ps q.policy_id q.version) inj.0 refl h)

  set_self :
      (x : ResolvedReviewProfile) (id version : String) (ps : Profiles)
      → set_profile id version x ps id version ≡ some x
  set_self x id version ps = ground (arith, eq_refl id, eq_refl version)

  stored-IsHeld :
      (uri : String) (ps : Profiles) (x : ResolvedReviewProfile) (ps' : Profiles)
      → ◌≡◌ {A = Result ProfileError ResolvedReviewProfile × Profiles}
          (
            ok (resolved_profile digest p uri),
            set_profile p.policy_id p.version (resolved_profile digest p uri) ps,
          )
          (ok x, ps')
      → IsHeld ps' × (resolved_profile digest p uri ≡ x)
  stored-IsHeld uri ps x ps' h =
      let left = ap (λ (r : Result ProfileError ResolvedReviewProfile × Profiles). r.1) h in
      (
        (
          resolved_profile digest p uri,
          sym (ap (λ (f : Profiles). f p.policy_id p.version) left)
              ∙ set_self (resolved_profile digest p uri) p.policy_id p.version ps,
          refl,
          refl,
        ),
        cc (h),
      )

  registered-IsHeld :
      (uri : String) (ps : Profiles) (o : Option ResolvedReviewProfile) (x : ResolvedReviewProfile)
      (ps' : Profiles)
      → register_over digest o (resolved_profile digest p uri) ps ≡ (ok x, ps')
      → IsHeld ps' × (resolved_profile digest p uri ≡ x)
  registered-IsHeld uri ps none x ps' h = stored-IsHeld uri ps x ps' h
  registered-IsHeld uri ps (some z) x ps' h = elim (Bool-cases (z.ref.sha256 == digest p)) [
    | inl k ↦ stored-IsHeld uri ps x ps' (rw k at h)
    | inr k ↦ absurd (cc (rw k at h))
  ]

  found-ok :
      (allow : Bool) (y : ResolvedReviewProfile)
      → y.ref.sha256 ≡ digest p
      → y.policy ≡ p
      → selectable allow p.status ≡ true
      → resolve_found (some y) (some (digest p)) allow ≡ ok y
  found-ok allow y s e h =
      let status : selectable allow y.policy.status ≡ true =
        subst (λ (q : ReviewPolicyPack). selectable allow q.status ≡ true) (sym e) h in
      ground (arith, status, s, eq_iff y.ref.sha256 (digest p))

  -- Let a policy be registered, and let its status be selectable. After any later
  -- registrations, none of which is another policy with its digest, the reference that was
  -- returned resolves, and to this policy.
  pub resolve_ref-frozen :
      (uri : String) (ps ps' : Profiles) (x : ResolvedReviewProfile)
      (later : List (ReviewPolicyPack × String)) (allow : Bool)
      → IsApart later
      → register digest p uri ps ≡ (ok x, ps')
      → selectable allow p.status ≡ true
      → (y : ResolvedReviewProfile) × (resolve_ref x.ref allow (registrations digest later ps')
          ≡ ok y)
        × (y.policy ≡ p)
  unfolding register resolve_ref resolve
  resolve_ref-frozen uri ps ps' x later allow inj h a =
      let (held, same) = registered-IsHeld uri ps (ps p.policy_id p.version) x ps' h in
      let (y, f, s, e) = registrations-IsHeld later ps' inj held in
      (
        y,
        subst
            (λ (r : ResolvedReviewProfile).
              resolve_ref r.ref allow (registrations digest later ps') ≡ ok y)
            same (rw f (found-ok allow y s e a)),
        e,
      )
