-- ===== src/Journal/Tamper.antt =====
-- Two journals with one last hash (src/axcalib/runtime/transactions.py).
use axcalib.Prelude.{
  Eq, ◌≢◌, ◌⊎◌, ◌↔◌, nat_beq, Bool-cases, ℕ, ◌+◌, String, ◌≡◌, sym, ap, ◌∙◌, Bool, true, ◌&&◌,
  Option, none, some, List, [], ◌∷◌, inl, inr, length, arith, eq_iff, ◌==◌, nat_eq, string_eq,
  option_eq, option_beq_iff,
}
use axcalib.Exec.{ok}
use axcalib.Plans.{Plan, plan_beq, plan_beq_iff}
use axcalib.Journal.{Status, status_rank, Payload, JournalEvent, Line, Journal, last_event, read}
use axcalib.Journal.Chain.{IsChain}
use axcalib.Journal.Chain.Append.{read-IsChain}

instance abbrev plan_eq : Eq Plan
plan_eq = record { beq = plan_beq; beq_iff = plan_beq_iff }

status_rank_iff : (a b : Status) → (nat_beq (status_rank a) (status_rank b) ≡ true) ↔ (a ≡ b)
status_rank_iff a b = ground arith

abbrev payload_beq : Payload → Payload → Bool
payload_beq a b =
    a.transaction_id == b.transaction_id
    && (nat_beq a.sequence b.sequence
        && (nat_beq (status_rank a.status) (status_rank b.status)
            && (nat_beq a.occurred_at b.occurred_at
                && (a.previous_event_sha256 == b.previous_event_sha256
                    && (a.reason_code == b.reason_code && a.plan == b.plan)))))

payload_beq_iff : (a b : Payload) → (payload_beq a b ≡ true) ↔ (a ≡ b)
payload_beq_iff a b = (
  (λ h. ground (
    arith,
    eq_iff a.transaction_id b.transaction_id,
    status_rank_iff a.status b.status,
    option_beq_iff string_eq a.previous_event_sha256 b.previous_event_sha256,
    option_beq_iff string_eq a.reason_code b.reason_code,
    option_beq_iff plan_eq a.plan b.plan,
  )),
  (λ h. ground (
    arith,
    eq_iff a.transaction_id b.transaction_id,
    status_rank_iff a.status b.status,
    option_beq_iff string_eq a.previous_event_sha256 b.previous_event_sha256,
    option_beq_iff string_eq a.reason_code b.reason_code,
    option_beq_iff plan_eq a.plan b.plan,
  )),
)

module _ (digest : Payload → String) where
  -- Two different payloads with one digest.
  pub record HasCollision : Type 0 where
    pub first : Payload
    pub second : Payload
    pub same_digest : digest first ≡ digest second
    pub different : first ≢ second

  same_event :
      (a b : JournalEvent)
      → a.event_sha256 ≡ digest a.payload
      → b.event_sha256 ≡ digest b.payload
      → a.event_sha256 ≡ b.event_sha256
      → (a ≡ b) ⊎ HasCollision
  same_event a b ha hb e = elim (Bool-cases (payload_beq a.payload b.payload)) [
    | inl s ↦
        let same : a.payload ≡ b.payload = (payload_beq_iff a.payload b.payload).0 s in
        inl (λ i. record { payload = same i; event_sha256 = e i })
    | inr s ↦ inr (record {
      first = a.payload;
      second = b.payload;
      same_digest = sym ha ∙ e ∙ hb;
      different = λ same. ground (arith, s, (payload_beq_iff a.payload b.payload).1 same);
    })
  ]

  -- The number of the last event counts the events.
  last-sequence :
      (number : ℕ) (previous : Option String) (e : JournalEvent) (es : List JournalEvent)
      → IsChain digest number previous (e ∷ es)
      → (last_event e es).payload.sequence ≡ number + length es
  last-sequence number previous e [] c = omega arith
  last-sequence number previous e (x ∷ es) c =
      omega (arith, last-sequence (number + 1) (some e.event_sha256) x es c.3)

  last-hashed :
      (number : ℕ) (previous : Option String) (e : JournalEvent) (es : List JournalEvent)
      → IsChain digest number previous (e ∷ es)
      → (last_event e es).event_sha256 ≡ digest (last_event e es).payload
  last-hashed number previous e [] c = c.0
  last-hashed number previous e (x ∷ es) c = last-hashed (number + 1) (some e.event_sha256) x es c.3

  -- Chains of one length that end in one event are the same.
  same_chain :
      (number : ℕ) (q r : Option String) (a b : JournalEvent) (as' bs : List JournalEvent)
      → IsChain digest number q (a ∷ as')
      → IsChain digest number r (b ∷ bs)
      → length as' ≡ length bs
      → last_event a as' ≡ last_event b bs
      → ((a ∷ as' ≡ b ∷ bs) × (q ≡ r)) ⊎ HasCollision
  same_chain number q r a b [] [] ca cb k e =
      inl (rw e, sym ca.2 ∙ ap (λ (x : JournalEvent). x.payload.previous_event_sha256) e ∙ cb.2)
  same_chain number q r a b [] (y ∷ bs) ca cb k e = absurd (omega arith)
  same_chain number q r a b (x ∷ as') [] ca cb k e = absurd (omega arith)
  same_chain number q r a b (x ∷ as') (y ∷ bs) ca cb k e =
      elim (same_chain (number + 1) (some a.event_sha256) (some b.event_sha256) x y as' bs ca.3 cb.3
        (omega arith) e) [
          | inr collision ↦ inr collision
          | inl (tails, hashes) ↦ elim (same_event a b ca.0 cb.0 (ground (arith, hashes))) [
            | inr collision ↦ inr collision
            | inl heads ↦ inl (
              cc (heads, tails),
              sym ca.2 ∙ ap (λ (x : JournalEvent). x.payload.previous_event_sha256) heads ∙ cb.2,
            )
          ]
        ]

  -- Two journals that are read back and end in the same hash hold the same events, or else the
  -- digest has a collision.
  pub last_hash_determines :
      (ls ms : List Line) (j k : Journal) (a b : JournalEvent) (as' bs : List JournalEvent)
      → read digest (some ls) ≡ ok j
      → read digest (some ms) ≡ ok k
      → j.events ≡ a ∷ as'
      → k.events ≡ b ∷ bs
      → (last_event a as').event_sha256 ≡ (last_event b bs).event_sha256
      → (j.events ≡ k.events) ⊎ HasCollision
  last_hash_determines ls ms j k a b as' bs hj hk ea eb same =
      let ca = rw ea at (read-IsChain digest ls j hj) in
      let cb = rw eb at (read-IsChain digest ms k hk) in
      elim (same_event (last_event a as') (last_event b bs) (last-hashed 1 none a as' ca)
        (last-hashed 1 none b bs cb) same) [
          | inr collision ↦ inr collision
          | inl last ↦
              let numbers : 1 + length as' ≡ 1 + length bs =
                sym (last-sequence 1 none a as' ca)
                ∙ ap (λ (x : JournalEvent). x.payload.sequence) last
                ∙ last-sequence 1 none b bs cb in
              elim (same_chain 1 none none a b as' bs ca cb (omega arith) last) [
                | inr collision ↦ inr collision
                | inl both ↦ inl (ea ∙ both.0 ∙ sym eb)
              ]
        ]
