-- ===== src/Maintenance/Loop.antt =====
-- One visit of the maintenance loop, and the loop (src/axcalib/runtime/maintenance.py).
use axcalib.Prelude.{
  ℕ, ◌-◌, ◌≡◌, ◌⊎◌, refl, sym, ◌∙◌, ap, subst, Bool, true, false, not, ◌&&◌, ◌||◌, Option, none,
  some, List, [], ◌∷◌, leb, arith, ◌==◌, string_eq, list_eq, Bool-cases, inl, inr,
}
use axcalib.Maintenance.Names.{ends_with}
use axcalib.Maintenance.{
  FilePath, StoredFile, Tree, move, Area, archive, quarantine, excluded, name_of, is_journal,
  JournalStatus, committed, blocked, reconcile_required, Probe, RunOptions, alive, journal_area,
  Kind, visit, visit_found, handle, scan, move_action, handle_lock, journal_action,
}
use axcalib.Maintenance.Moves.{
  IsFree, IsMoved, within, move-IsFree, move-IsMoved, move-other, move-keeps_IsMoved, path_iff,
}

module _ (probe : Probe) (o : RunOptions) where
  abbrev is_lock_due : FilePath → StoredFile → Bool
  is_lock_due p f =
      ends_with ".lock" (name_of p)
      && (leb o.stale_after (o.now - f.modified)
          && not (alive probe o (probe.lock_owner f.content)))

  abbrev is_temp_due : FilePath → StoredFile → Bool
  is_temp_due p f = ends_with ".tmp" (name_of p) && leb o.stale_after (o.now - f.modified)

  abbrev is_committed : JournalStatus → Bool
  is_committed committed = true
  is_committed _ = false

  abbrev is_stuck : JournalStatus → Bool
  is_stuck blocked = true
  is_stuck reconcile_required = true
  is_stuck _ = false

  abbrev is_journal_due : FilePath → StoredFile → Bool
  is_journal_due p f = is_journal p && leb o.retention (o.now - f.modified)

  -- What may go to an area: to the archive, a committed journal past its retention; to quarantine,
  -- a stale lock with no process, a stale temporary file, or, when asked for, a stuck journal.
  abbrev pub may_go : Area → FilePath → StoredFile → Bool
  may_go archive p f = is_journal_due p f && is_committed (probe.journal_status f.content)
  may_go quarantine p f =
      is_lock_due p f
      || (is_temp_due p f
          || (is_journal_due p f
              && (o.quarantine_blocked_journals && is_stuck (probe.journal_status f.content))))

  abbrev Stays : Tree → Tree → Type 0
  Stays t u = u ≡ t

  abbrev Goes : FilePath → StoredFile → Tree → Tree → Type 0
  Goes p f t u =
      (area : Area) × (u ≡ move p (within o.run_id area p) t)
      × (o.apply ≡ true)
      × (may_go area p f ≡ true)

  move_action-cases :
      (p : FilePath) (f : StoredFile) (age : ℕ) (kind : Kind) (area : Area) (t : Tree)
      → may_go area p f ≡ true
      → Stays t (move_action probe o p f age kind area t).1
        ⊎ Goes p f t (move_action probe o p f age kind area t).1
  move_action-cases p f age kind area t m = elim (Bool-cases o.apply) [
    | inl e ↦ inr (area, rw e refl, e, m)
    | inr e ↦ inl (rw e refl)
  ]

  area-may_go :
      (p : FilePath) (f : StoredFile) (s : JournalStatus) (area : Area)
      → is_journal_due p f ≡ true
      → probe.journal_status f.content ≡ s
      → journal_area probe o s ≡ some area
      → may_go area p f ≡ true
  area-may_go p f s archive d e h = ground (arith, e)
  area-may_go p f s quarantine d e h = ground (arith, e)

  journal_action-cases :
      (p : FilePath) (f : StoredFile) (age : ℕ) (t : Tree) (a : Option Area)
      → ((area : Area) → a ≡ some area → may_go area p f ≡ true)
      → Stays t (journal_action probe o a p f age t).1
        ⊎ Goes p f t (journal_action probe o a p f age t).1
  journal_action-cases p f age t none m = inl refl
  journal_action-cases p f age t (some area) m =
      move_action-cases p f age Kind.transaction_journal area t (m area refl)

  handle_lock-cases :
      (p : FilePath) (f : StoredFile) (age : ℕ) (t : Tree)
      → (alive probe o (probe.lock_owner f.content) ≡ false → may_go quarantine p f ≡ true)
      → Stays t (handle_lock probe o p f age t).1 ⊎ Goes p f t (handle_lock probe o p f age t).1
  handle_lock-cases p f age t m = elim (Bool-cases (alive probe o (probe.lock_owner f.content))) [
    | inl e ↦ inl (rw e refl)
    | inr e ↦ rw e (move_action-cases p f age Kind.stale_lock quarantine t (m e))
  ]

  handle-cases :
      (p : FilePath) (f : StoredFile) (t : Tree)
      → Stays t (handle probe o p f t).1 ⊎ Goes p f t (handle probe o p f t).1
  handle-cases p f t =
      elim (Bool-cases (ends_with ".lock" (name_of p) && leb o.stale_after (o.now - f.modified))) [
        | inl e ↦ rw e (handle_lock-cases p f (o.now - f.modified) t (λ d. ground (arith, e, d)))
        | inr e ↦ elim (Bool-cases (is_temp_due p f)) [
          | inl g ↦
              rw (e, g)
                (move_action-cases p f (o.now - f.modified) Kind.orphan_temp quarantine t
                  (ground (arith, g)))
          | inr g ↦ elim (Bool-cases (is_journal_due p f)) [
            | inl k ↦
                rw (e, g, k)
                  (journal_action-cases p f (o.now - f.modified) t
                    (journal_area probe o (probe.journal_status f.content))
                    (λ area h. area-may_go p f (probe.journal_status f.content) area k refl h))
            | inr k ↦ inl (rw (e, g, k) refl)
          ]
        ]
      ]

  -- A visit changes nothing, or moves what stands at its path.
  visit_found-cases :
      (p : FilePath) (t : Tree) (x : Option StoredFile)
      → t p ≡ x
      → Stays t (visit_found probe o p x t).1
        ⊎ ((f : StoredFile) × (t p ≡ some f)
            × (excluded p ≡ false)
            × Goes p f t (visit_found probe o p x t).1)
  visit_found-cases p t none h = inl refl
  visit_found-cases p t (some f) h = elim (Bool-cases (excluded p)) [
    | inl e ↦ inl (rw e refl)
    | inr e ↦ elim (handle-cases p f t) [ inl s ↦ inl (rw e s) | inr g ↦ inr (f, h, e, rw e g) ]
  ]

  -- A file is where it was, or it was due and is in the area.
  abbrev pub IsKept : FilePath → StoredFile → Tree → Type 0
  IsKept p f u =
      (u p ≡ some f)
      ⊎ ((area : Area) × IsMoved o.run_id area p f u × (o.apply ≡ true) × (may_go area p f ≡ true))

  visit-IsFree :
      (q : FilePath) (t : Tree) → IsFree o.run_id t → IsFree o.run_id (visit probe o q t).1
  unfolding visit
  visit-IsFree q t i = elim (visit_found-cases q t (t q) refl) [
    | inl s ↦ subst (IsFree o.run_id) (sym s) i
    | inr (f, h, x, (area, e, a, m)) ↦
        subst (IsFree o.run_id) (sym e) (move-IsFree o.run_id area q t x i)
  ]

  visit-IsKept :
      (q p : FilePath) (f : StoredFile) (t : Tree)
      → IsFree o.run_id t
      → t p ≡ some f
      → IsKept p f (visit probe o q t).1
  unfolding visit
  visit-IsKept q p f t i h = elim (visit_found-cases q t (t q) refl) [
    | inl s ↦ inl (ap (λ (u : Tree). u p) s ∙ h)
    | inr (g, k, x, (area, e, a, m)) ↦ elim (Bool-cases (q == p)) [
      | inl d ↦
          let same : q ≡ p = (path_iff q p).0 d in
          let content : some g ≡ some f = sym k ∙ ap t same ∙ h in
          let same_file : g ≡ f = cc (content) in
          inr (
            area,
            subst (IsMoved o.run_id area p f) (sym e) (
                subst (λ z. IsMoved o.run_id area p f (move z (within o.run_id area z) t))
                  (sym same)
                  (move-IsMoved o.run_id area p f t (subst (λ z. excluded z ≡ false) same x) h)),
            a,
            subst (λ z. may_go area z f ≡ true) same
                (subst (λ z. may_go area q z ≡ true) same_file m),
          )
      | inr d ↦ elim (Bool-cases (within o.run_id area q == p)) [
        | inl w ↦ absurd (
            ground (
              arith,
              (path_iff (within o.run_id area q) p).0 w,
              i area q g x k,
              h,
              ap t ((path_iff (within o.run_id area q) p).0 w),
            ))
        | inr w ↦ inl (ap (λ (u : Tree). u p) e ∙ move-other o.run_id area q p f t d w ∙ h)
      ]
    ]
  ]

  visit-IsMoved :
      (q p : FilePath) (f : StoredFile) (a : Area) (t : Tree)
      → IsMoved o.run_id a p f t
      → IsMoved o.run_id a p f (visit probe o q t).1
  unfolding visit
  visit-IsMoved q p f a t m = elim (visit_found-cases q t (t q) refl) [
    | inl s ↦ subst (IsMoved o.run_id a p f) (sym s) m
    | inr (g, k, x, (area, e, _, _)) ↦
        subst (IsMoved o.run_id a p f) (sym e) (move-keeps_IsMoved o.run_id area a q p f g t x k m)
  ]

  scan-IsMoved :
      (ps : List FilePath) (p : FilePath) (f : StoredFile) (a : Area) (t : Tree)
      → IsMoved o.run_id a p f t
      → IsMoved o.run_id a p f (scan probe o ps t).1
  unfolding scan
  scan-IsMoved [] p f a t m = m
  scan-IsMoved (q ∷ ps) p f a t m =
      scan-IsMoved ps p f a (visit probe o q t).1 (visit-IsMoved q p f a t m)

  pub scan-IsKept :
      (ps : List FilePath) (p : FilePath) (f : StoredFile) (t : Tree)
      → IsFree o.run_id t
      → t p ≡ some f
      → IsKept p f (scan probe o ps t).1
  unfolding scan
  scan-IsKept [] p f t i h = inl h
  scan-IsKept (q ∷ ps) p f t i h = elim (visit-IsKept q p f t i h) [
    | inl k ↦ scan-IsKept ps p f (visit probe o q t).1 (visit-IsFree q t i) k
    | inr (area, m, a, g) ↦ inr (area, scan-IsMoved ps p f area (visit probe o q t).1 m, a, g)
  ]
