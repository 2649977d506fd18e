-- ===== src/Outbox/Delivery.antt =====
-- What one send leaves in the outbox (src/axcalib/notifications/outbox.py).
use axcalib.Prelude.{
  ℕ, ◌+◌, String, ◌≡◌, refl, sym, ◌∙◌, ap, subst, Bool, true, false, Option, none, some, arith,
  ◌==◌, string_eq, if◌then◌else◌, Bool-cases, inl, inr,
}
use axcalib.Exec.{Result, ok, err}
use axcalib.Files.{Files, write, write_self}
use axcalib.Outbox.{
  OutboxEvent, DeliveryStatus, pending, failed, recorded, OutboxEntry, Port, Outbox, is_recorded,
  is_failed, entry, put, delivered, send_over, send,
}

-- The attempts that a stored entry counts.
abbrev pub attempts_of : Option OutboxEntry → ℕ
attempts_of none = 0
attempts_of (some x) = x.attempts

abbrev pub is_failure : Option OutboxEntry → Bool
is_failure none = false
is_failure (some x) = is_failed x.delivery_status

abbrev pub failed_at : {W : Type 0} → Outbox W → String → Bool
failed_at s name = is_failure (s.files name)

write_twice :
    (name : String) (x y : OutboxEntry) (files : Files OutboxEntry) (other : String)
    → write name y (write name x files) other ≡ (if name == other then some y else files other)
unfolding write
write_twice name x y files other = ground arith

module _ {W E : Type 0} (port : Port W E) where
  -- What a call leaves: the result, the file of the event and the other files.
  pub record IsDelivered (event : OutboxEvent) (s s' : Outbox W) : Type 0 where
    pub found : OutboxEntry
    pub stands : s'.files (port.file_name event) ≡ some found
    pub is_done : found.delivery_status ≡ recorded
    pub others :
        (name : String) → (port.file_name event == name) ≡ false → s'.files name ≡ s.files name

  pub record IsRefused (event : OutboxEvent) (e : E) (s s' : Outbox W) : Type 0 where
    pub found : OutboxEntry
    pub stands : s'.files (port.file_name event) ≡ some found
    pub same_event : found.event ≡ event
    pub is_kept : found.delivery_status ≡ failed
    pub reason : found.last_error ≡ some (port.error_name e)
    pub counted : found.attempts ≡ attempts_of (s.files (port.file_name event)) + 1
    pub raised : port.deliver event s.world ≡ (err e, s'.world)
    pub others :
        (name : String) → (port.file_name event == name) ≡ false → s'.files name ≡ s.files name

  attempt-IsDelivered :
      (event : OutboxEvent) (n now later : ℕ) (s s' : Outbox W) (o : Result E (Unit {0}) × W)
      → delivered port
          (entry event n pending now)
          later
          (put port (entry event n pending now) s).files
          o
        ≡ (ok tt, s')
      → IsDelivered event s s'
  attempt-IsDelivered event n now later s s' (ok u, w) h =
      let left = ap (λ (x : Result E (Unit {0}) × Outbox W). x.1.files) h in
      let name = port.file_name event in
      record {
        found = record (entry event n recorded now) { updated_at = later };
        stands =
            sym (ap (λ (f : Files OutboxEntry). f name) left)
            ∙ write_self name _ (write name _ s.files);
        is_done = refl;
        others = λ other d.
            sym (ap (λ (f : Files OutboxEntry). f other) left)
            ∙ write_twice name _ _ s.files other
            ∙ ground (arith, d);
      }
  attempt-IsDelivered event n now later s s' (err e, w) h = absurd (cc (h))

  attempt-IsRefused :
      (event : OutboxEvent) (n now later : ℕ) (s s' : Outbox W) (e : E)
      (o : Result E (Unit {0}) × W)
      → n ≡ attempts_of (s.files (port.file_name event)) + 1
      → port.deliver event s.world ≡ o
      → delivered port
          (entry event n pending now)
          later
          (put port (entry event n pending now) s).files
          o
        ≡ (err e, s')
      → IsRefused event e s s'
  attempt-IsRefused event n now later s s' e (ok u, w) q d h = absurd (cc (h))
  attempt-IsRefused event n now later s s' e (err x, w) q d h =
      let left = ap (λ (x : Result E (Unit {0}) × Outbox W). x.1.files) h in
      let world = ap (λ (x : Result E (Unit {0}) × Outbox W). x.1.world) h in
      let why : x ≡ e = cc (h) in
      let name = port.file_name event in
      record {
        found = record (entry event n failed now) {
          last_error = some (port.error_name x);
          updated_at = later;
        };
        stands =
            sym (ap (λ (f : Files OutboxEntry). f name) left)
            ∙ write_self name _ (write name _ s.files);
        same_event = refl;
        is_kept = refl;
        reason = ap (λ (y : E). some (port.error_name y)) why;
        counted = q;
        raised = d ∙ ap (λ (y : E). (err y, w)) why ∙ ap (λ (v : W). (err e, v)) world;
        others = λ other k.
            sym (ap (λ (f : Files OutboxEntry). f other) left)
            ∙ write_twice name _ _ s.files other
            ∙ ground (arith, k);
      }

  recorded-status : (t : DeliveryStatus) → is_recorded t ≡ true → t ≡ recorded
  recorded-status t h = ground arith

  send_over-IsDelivered :
      (event : OutboxEvent) (now later : ℕ) (s s' : Outbox W) (o : Option OutboxEntry)
      → s.files (port.file_name event) ≡ o
      → send_over port o event now later s ≡ (ok tt, s')
      → IsDelivered event s s'
  send_over-IsDelivered event now later s s' none f h =
      attempt-IsDelivered event 1 now later s s' (port.deliver event s.world) h
  send_over-IsDelivered event now later s s' (some x) f h =
      elim (Bool-cases (is_recorded x.delivery_status)) [
        | inl e ↦
            let same : s ≡ s' = ap (λ (y : Result E (Unit {0}) × Outbox W). y.1) (rw e at h) in
            subst (IsDelivered event s) same (record {
              found = x;
              stands = f;
              is_done = recorded-status x.delivery_status e;
              others = λ name d. refl;
            })
        | inr e ↦
            attempt-IsDelivered event (x.attempts + 1) now later s s' (port.deliver event s.world)
              (rw e at h)
      ]

  -- When `send` returns, the event stands on file as recorded, and no other file changed.
  pub send-IsDelivered :
      (event : OutboxEvent) (now later : ℕ) (s s' : Outbox W)
      → send port event now later s ≡ (ok tt, s')
      → IsDelivered event s s'
  unfolding send
  send-IsDelivered event now later s s' h =
      send_over-IsDelivered event now later s s' (s.files (port.file_name event)) refl h

  send_over-IsRefused :
      (event : OutboxEvent) (now later : ℕ) (s s' : Outbox W) (e : E) (o : Option OutboxEntry)
      → s.files (port.file_name event) ≡ o
      → send_over port o event now later s ≡ (err e, s')
      → IsRefused event e s s'
  send_over-IsRefused event now later s s' e none f h =
      attempt-IsRefused event 1 now later s s' e (port.deliver event s.world) (rw f refl) refl h
  send_over-IsRefused event now later s s' e (some x) f h =
      elim (Bool-cases (is_recorded x.delivery_status)) [
        | inl c ↦ absurd (cc (rw c at h))
        | inr c ↦
            attempt-IsRefused event (x.attempts + 1) now later s s' e (port.deliver event s.world)
              (rw f refl) refl (rw c at h)
      ]

  -- When `send` raises, the adapter raised this on the world before, and the event stands on
  -- file as failed, with the error's class name and one attempt more than the file counted;
  -- no other file changed.
  pub send-IsRefused :
      (event : OutboxEvent) (now later : ℕ) (s s' : Outbox W) (e : E)
      → send port event now later s ≡ (err e, s')
      → IsRefused event e s s'
  unfolding send
  send-IsRefused event now later s s' e h =
      send_over-IsRefused event now later s s' e (s.files (port.file_name event)) refl h

  -- When `send` returned, the same send again changes nothing, the world included.
  pub send_twice :
      (event : OutboxEvent) (now later again : ℕ) (s s' : Outbox W)
      → send port event now later s ≡ (ok tt, s')
      → send port event again again s' ≡ (ok tt, s')
  unfolding send
  send_twice event now later again s s' h =
      let d = send-IsDelivered event now later s s' h in rw (d.stands, d.is_done) refl
