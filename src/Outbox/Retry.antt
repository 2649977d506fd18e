-- ===== src/Outbox/Retry.antt =====
-- What one pass of `retry_failed` leaves in the outbox (src/axcalib/notifications/outbox.py).
use axcalib.Prelude.{
  ℕ, String, ◌≡◌, refl, sym, ◌∙◌, ap, subst, true, false, Option, none, some, List, [], ◌∷◌, any,
  arith, ◌==◌, string_eq, Bool-cases, inl, inr, eq_iff,
}
use axcalib.Exec.{Result, ok, err}
use axcalib.Outbox.{
  OutboxEvent, DeliveryStatus, recorded, OutboxEntry, Port, Outbox, is_failed, send, to_retry,
  count, continue, retry_entry, retry_failed,
}
use axcalib.Outbox.Delivery.{failed_at, IsDelivered, send-IsDelivered}

module _ {W E : Type 0} (port : Port W E) where
  -- Every file has the name of the event that it holds.
  abbrev pub IsNamed : Outbox W → Type 0
  IsNamed s =
      (name : String) (x : OutboxEntry)
      → s.files name ≡ some x
      → is_failed x.delivery_status ≡ true
      → port.file_name x.event ≡ name

  done-not_failed : (t : DeliveryStatus) → t ≡ recorded → is_failed t ≡ false
  done-not_failed t h = ground (arith, h)

  sent-not_failed :
      (event : OutboxEvent) (s s' : Outbox W)
      → IsDelivered port event s s'
      → failed_at s' (port.file_name event) ≡ false
  sent-not_failed event s s' d =
      rw (failed_at, d.stands) (done-not_failed d.found.delivery_status d.is_done)

  -- A delivery makes no file failed, and where one stays failed it is the same.
  delivered-failed_at :
      (event : OutboxEvent) (s s' : Outbox W) (name : String)
      → IsDelivered port event s s'
      → failed_at s name ≡ false
      → failed_at s' name ≡ false
  delivered-failed_at event s s' name d f = elim (Bool-cases (port.file_name event == name)) [
    | inl e ↦
        let same : port.file_name event ≡ name =
          ground (arith, eq_iff (port.file_name event) name) in
        subst (λ n. failed_at s' n ≡ false) same (sent-not_failed event s s' d)
    | inr e ↦ rw (failed_at, d.others name e) f
  ]

  delivered-IsNamed :
      (event : OutboxEvent) (s s' : Outbox W) → IsDelivered port event s s' → IsNamed s → IsNamed s'
  delivered-IsNamed event s s' d i name x f b = elim (Bool-cases (port.file_name event == name)) [
    | inl e ↦
        let same : port.file_name event ≡ name =
          ground (arith, eq_iff (port.file_name event) name) in
        let g : s'.files name ≡ some d.found =
          subst (λ n. s'.files n ≡ some d.found) same d.stands in
        let found : some x ≡ some d.found = sym f ∙ g in
        absurd (ground (arith, found, d.is_done, b))
    | inr e ↦ i name x (sym (d.others name e) ∙ f) b
  ]

  -- What the pass did at one name.
  pub record IsPassed (s s' : Outbox W) : Type 0 where
    pub named : IsNamed s → IsNamed s'
    pub settled : (name : String) → failed_at s name ≡ false → failed_at s' name ≡ false

  count-ok :
      (r : Result E ℕ × Outbox W) (n : ℕ) (s' : Outbox W)
      → count r ≡ (ok n, s')
      → (k : ℕ) × (r ≡ (ok k, s'))
  count-ok (ok k, t) n s' h = (k, ap (λ (x : Result E ℕ × Outbox W). (ok k, x.1)) h)
  count-ok (err e, t) n s' h = absurd (cc (h))

  -- A pass that succeeds first sends what has failed, then goes on.
  retry_entry-ok :
      (o : Option OutboxEvent) (now later : ℕ) (rest : Outbox W → Result E ℕ × Outbox W)
      (s : Outbox W) (n : ℕ) (s' : Outbox W)
      → retry_entry port o now later rest s ≡ (ok n, s')
      → (t : Outbox W) × (k : ℕ) × (rest t ≡ (ok k, s'))
        × IsPassed s t
        × ((event : OutboxEvent) → o ≡ some event → failed_at t (port.file_name event) ≡ false)
  retry_entry-ok none now later rest s n s' h =
      (s, n, h, record { named = λ i. i; settled = λ name f. f }, λ event e. absurd (cc (e)))
  retry_entry-ok (some event) now later rest s n s' h =
      retry_event-ok event rest s n s' (send port event now later s)
        (λ t e. send-IsDelivered port event now later s t e) h
    where
      retry_event-ok :
          (event : OutboxEvent) (rest : Outbox W → Result E ℕ × Outbox W) (s : Outbox W) (n : ℕ)
          (s' : Outbox W) (r : Result E (Unit {0}) × Outbox W)
          → ((t : Outbox W) → r ≡ (ok tt, t) → IsDelivered port event s t)
          → continue r rest ≡ (ok n, s')
          → (t : Outbox W) × (k : ℕ) × (rest t ≡ (ok k, s'))
            × IsPassed s t
            × ((other : OutboxEvent)
                → some event ≡ some other
                → failed_at t (port.file_name other) ≡ false)
      retry_event-ok event rest s n s' (ok u, t) d h =
          let (k, q) = count-ok (rest t) n s' h in
          (
            t,
            k,
            q,
            record {
              named = delivered-IsNamed event s t (d t refl);
              settled = λ name f. delivered-failed_at event s t name (d t refl) f;
            },
            λ other e.
                subst (λ (v : OutboxEvent). failed_at t (port.file_name v) ≡ false) (cc (e))
                  (sent-not_failed event s t (d t refl)),
          )
      retry_event-ok event rest s n s' (err e, t) d h = absurd (cc (h))

  retry_failed-settled :
      (names : List String) (now later n : ℕ) (s s' : Outbox W) (name : String)
      → retry_failed port names now later s ≡ (ok n, s')
      → failed_at s name ≡ false
      → failed_at s' name ≡ false
  unfolding retry_failed
  retry_failed-settled [] now later n s s' name h f =
      subst (λ t. failed_at t name ≡ false) (ap (λ (x : Result E ℕ × Outbox W). x.1) h) f
  retry_failed-settled (x ∷ names) now later n s s' name h f =
      let (t, k, q, passed, _) =
        retry_entry-ok (to_retry (s.files x)) now later (retry_failed port names now later) s n s'
          h in
      retry_failed-settled names now later k t s' name q (passed.settled name f)

  head-not_failed :
      (s t : Outbox W) (name : String) (o : Option OutboxEntry)
      → s.files name ≡ o
      → IsNamed s
      → IsPassed s t
      → ((event : OutboxEvent)
          → to_retry o ≡ some event
          → failed_at t (port.file_name event) ≡ false)
      → failed_at t name ≡ false
  head-not_failed s t name none f i p d = p.settled name (rw (failed_at, f) refl)
  head-not_failed s t name (some x) f i p d = elim (Bool-cases (is_failed x.delivery_status)) [
    | inl e ↦ subst (λ n. failed_at t n ≡ false) (i name x f e) (d x.event (rw e refl))
    | inr e ↦ p.settled name (rw (failed_at, f) e)
  ]

  -- Let every failed file have the name of the event that it holds. After a pass of
  -- `retry_failed` that returns a number, none of the files that it listed is failed.
  pub retry_failed-none_failed :
      (names : List String) (now later n : ℕ) (s s' : Outbox W)
      → IsNamed s
      → retry_failed port names now later s ≡ (ok n, s')
      → any (failed_at s') names ≡ false
  unfolding retry_failed
  retry_failed-none_failed [] now later n s s' i h = refl
  retry_failed-none_failed (x ∷ names) now later n s s' i h =
      let (t, k, q, passed, sent) =
        retry_entry-ok (to_retry (s.files x)) now later (retry_failed port names now later) s n s'
          h in
      let here =
        retry_failed-settled names now later k t s' x q
          (head-not_failed s t x (s.files x) refl i passed sent) in
      ground (arith, here, retry_failed-none_failed names now later k t s' (passed.named i) q)

  -- Where the send of a failed file raises, the pass ends there with this outbox.
  pub retry_failed-stops :
      (name : String) (names : List String) (now later : ℕ) (s s' : Outbox W) (x : OutboxEntry)
      (e : E)
      → s.files name ≡ some x
      → is_failed x.delivery_status ≡ true
      → send port x.event now later s ≡ (err e, s')
      → retry_failed port (name ∷ names) now later s ≡ (err e, s')
  unfolding retry_failed
  retry_failed-stops name names now later s s' x e f b h = rw (f, b, h) refl
