-- ===== src/Outbox/Examples.antt =====
-- An outbox with one failed entry, and adapters that raise or deliver.
use axcalib.Prelude.{
  ℕ, suc, String, ◌≡◌, refl, false, none, some, [], ◌∷◌, any, arith, eq_iff, string_eq,
}
use axcalib.Exec.{ok, err}
use axcalib.Files.{write}
use axcalib.Outbox.{OutboxEvent, OutboxEntry, Port, Outbox, failed, send, retry_failed}
use axcalib.Outbox.Delivery.{failed_at, IsRefused, send-IsRefused}
use axcalib.Outbox.Retry.{IsNamed, retry_failed-none_failed}

abbrev event : OutboxEvent
event = record {
  event_type = "requested";
  project_id = "p";
  stage = "registration";
  required_role = "administrator";
  revision = some 2;
  report_ref = none;
}

-- Deliveries are counted in the world.
abbrev open_port : Port ℕ String
open_port = record {
  deliver = λ e w. (ok tt, suc w);
  file_name = λ e. e.project_id;
  error_name = λ e. e;
}

abbrev closed_port : Port ℕ String
closed_port = record open_port { deliver = λ e w. (err "OSError", w) }

abbrev left_over : OutboxEntry
left_over = record {
  event = event;
  attempts = 1;
  delivery_status = failed;
  last_error = some "OSError";
  updated_at = 3;
}

abbrev store : Outbox ℕ
store = record { files = write "p" left_over (λ _. none); world = 0 }

abbrev behind : {A : Type 0} → A × Outbox ℕ → Outbox ℕ
behind (a, s) = s

abbrev refused : Outbox ℕ
refused = behind (send closed_port event 5 6 store)

send-IsRefused_example : IsRefused closed_port event "OSError" store refused
unfolding send write
send-IsRefused_example = send-IsRefused closed_port event 5 6 store refused "OSError" refl

abbrev passed : Outbox ℕ
passed = behind (retry_failed open_port ("p" ∷ "q" ∷ []) 5 6 store)

store-IsNamed : IsNamed open_port store
unfolding write
store-IsNamed name x f b = ground (arith, f, b, eq_iff "p" name)

retry_failed-none_failed_example : any (failed_at passed) ("p" ∷ "q" ∷ []) ≡ false
unfolding retry_failed send write
retry_failed-none_failed_example =
    retry_failed-none_failed open_port ("p" ∷ "q" ∷ []) 5 6 1 store passed store-IsNamed refl
