-- ===== src/Outbox.antt =====
-- The durable notification outbox (src/axcalib/notifications/outbox.py, and the event of
-- src/axcalib/notifications/base.py). The digest in a file's name, the downstream adapter and the
-- class names of its exceptions are parameters; the adapter works on a world of its own.
pub mod Delivery
pub mod Retry
mod Examples
use axcalib.Prelude.{
  ℕ, ◌+◌, String, Bool, true, false, Option, none, some, List, [], ◌∷◌, is_some, if◌then◌else◌,
}
use axcalib.Exec.{Result, ok, err}
use axcalib.Files.{Files, write}

-- `NotificationEvent` with any event type, as the outbox stores it.
pub record OutboxEvent : Type 0 where
  pub event_type : String
  pub project_id : String
  pub stage : String
  pub required_role : String
  pub revision : Option ℕ
  pub report_ref : Option String

pub data DeliveryStatus : Type 0 where
  pending failed recorded : DeliveryStatus

pub record OutboxEntry : Type 0 where
  pub event : OutboxEvent
  pub attempts : ℕ
  pub delivery_status : DeliveryStatus
  pub last_error : Option String
  pub updated_at : ℕ

-- The adapter, and the name of an event's file.
pub record Port (W E : Type 0) : Type 0 where
  pub deliver : OutboxEvent → W → Result E (Unit {0}) × W
  pub file_name : OutboxEvent → String
  pub error_name : E → String

-- The outbox directory and the world that the adapter works on.
pub record Outbox (W : Type 0) : Type 0 where
  pub files : Files OutboxEntry
  pub world : W

abbrev pub is_recorded : DeliveryStatus → Bool
is_recorded recorded = true
is_recorded _ = false

abbrev pub is_failed : DeliveryStatus → Bool
is_failed failed = true
is_failed _ = false

-- `_entry`
abbrev pub entry : OutboxEvent → ℕ → DeliveryStatus → ℕ → OutboxEntry
entry event attempts status now = record {
  event = event;
  attempts = attempts;
  delivery_status = status;
  last_error = none;
  updated_at = now;
}

-- Whether a pass sends what stands at a name.
abbrev pub to_retry : Option OutboxEntry → Option OutboxEvent
to_retry none = none
to_retry (some x) = if is_failed x.delivery_status then some x.event else none

abbrev pub count : {W E : Type 0} → Result E ℕ × Outbox W → Result E ℕ × Outbox W
count (ok n, s) = (ok (n + 1), s)
count (err e, s) = (err e, s)

abbrev pub continue :
    {W E : Type 0}
    → Result E (Unit {0}) × Outbox W
    → (Outbox W → Result E ℕ × Outbox W)
    → Result E ℕ × Outbox W
continue (ok u, s) rest = count (rest s)
continue (err e, s) rest = (err e, s)

-- `entries`, without the names.
abbrev pub entries : {W : Type 0} → List String → Outbox W → List (Option OutboxEntry)
entries [] s = []
entries (name ∷ names) s = s.files name ∷ entries names s

module _ {W E : Type 0} (port : Port W E) where
  -- `_write`
  abbrev pub put : OutboxEntry → Outbox W → Outbox W
  put x s = record s { files = write (port.file_name x.event) x s.files }

  abbrev pub delivered :
      OutboxEntry → ℕ → Files OutboxEntry → Result E (Unit {0}) × W → Result E (Unit {0}) × Outbox W
  delivered x later files (ok u, w) = (
    ok tt,
    put (record x { delivery_status = recorded; last_error = none; updated_at = later })
        (record { files = files; world = w }),
  )
  delivered x later files (err e, w) = (
    err e,
    put
        (record x {
          delivery_status = failed;
          last_error = some (port.error_name e);
          updated_at = later;
        })
        (record { files = files; world = w }),
  )

  abbrev pub attempt : OutboxEvent → ℕ → ℕ → ℕ → Outbox W → Result E (Unit {0}) × Outbox W
  attempt event attempts now later s =
      let x = entry event attempts pending now in
      delivered x later (put x s).files (port.deliver event s.world)

  abbrev pub send_over :
      Option OutboxEntry → OutboxEvent → ℕ → ℕ → Outbox W → Result E (Unit {0}) × Outbox W
  send_over none event now later s = attempt event 1 now later s
  send_over (some x) event now later s =
      if is_recorded x.delivery_status
      then (ok tt, s)
      else attempt event (x.attempts + 1) now later s

  -- `DurableNotificationOutbox.send`; `now` and `later` are the times of its two writes.
  unfoldable pub send : OutboxEvent → ℕ → ℕ → Outbox W → Result E (Unit {0}) × Outbox W
  send event now later s = send_over (s.files (port.file_name event)) event now later s

  abbrev pub retry_entry :
      Option OutboxEvent
      → ℕ
      → ℕ
      → (Outbox W → Result E ℕ × Outbox W)
      → Outbox W
      → Result E ℕ × Outbox W
  retry_entry none now later rest s = rest s
  retry_entry (some event) now later rest s = continue (send event now later s) rest

  -- `retry_failed` over the sorted names of the directory.
  unfoldable pub retry_failed : List String → ℕ → ℕ → Outbox W → Result E ℕ × Outbox W
  retry_failed [] now later s = (ok 0, s)
  retry_failed (name ∷ names) now later s =
      retry_entry (to_retry (s.files name)) now later (retry_failed names now later) s
