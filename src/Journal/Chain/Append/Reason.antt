-- ===== src/Journal/Chain/Append/Reason.antt =====
-- A status whose reason is longer than an event allows (`append_status` and `_append_unlocked` of
-- src/axcalib/runtime/transactions.py).
use axcalib.Prelude.{
  ℕ, ◌+◌, String, ◌≡◌, refl, true, false, Option, none, some, List, [], ◌∷◌, ◌++◌, eq_refl, nat_eq,
  string_eq, option_eq,
}
use axcalib.Exec.{ok, err}
use axcalib.Failure.{Failure, validation_error}
use axcalib.Files.{Files, write, write_self}
use axcalib.Plans.{Plan}
use axcalib.Identifiers.{is_safe_id}
use axcalib.Journal.{
  Status, committed, Payload, JournalEvent, Line, event, Journal, latest_is, plan_behind, reason_ok,
  check_event, check_line, cons_event, finish_read, read_from, read, new_event, append_to,
  append_unlocked, existing_events, append_status, status_behind,
}
use axcalib.Journal
use axcalib.Journal.Chain.{read_from-Accepted}
use axcalib.Journal.Chain.Append.{read-parts, status_event}

module _ (digest : Payload → String) where
  check_event-too_long :
      (number : ℕ) (previous : Option String) (plan : Option Plan) (id : String)
      (events : List JournalEvent) (now : ℕ) (status : Status) (reason : Option String)
      → reason_ok reason ≡ false
      → check_event digest number previous plan (new_event digest id events now status reason none)
        ≡ err validation_error
  unfolding check_event new_event
  check_event-too_long number previous plan id events now status reason long =
      rw (eq_refl (digest _), long) refl

  read_from-stop :
      (number : ℕ) (previous : Option String) (plan : Option Plan) (e : JournalEvent) (x : Failure)
      (rest : List Line)
      → check_event digest number previous plan e ≡ err x
      → read_from digest number previous plan (event e ∷ rest) ≡ err x
  unfolding read_from check_line
  read_from-stop number previous plan e x rest c = rw (c, read_from, check_line)

  read_from-pass :
      (number : ℕ) (previous : Option String) (plan : Option Plan) (e : JournalEvent) (x : Failure)
      (rest : List Line)
      → check_event digest number previous plan e ≡ ok e
      → read_from digest (number + 1) (some e.event_sha256) (plan_behind number plan e) rest ≡ err x
      → read_from digest number previous plan (event e ∷ rest) ≡ err x
  unfolding read_from check_line cons_event
  read_from-pass number previous plan e x rest c r = rw (c, read_from, check_line) (rw r)

  -- One more line that every reader refuses makes the file unreadable.
  read_from-refused :
      (lines : List Line) (number : ℕ) (previous : Option String) (plan final : Option Plan)
      (es : List JournalEvent) (e : JournalEvent) (x : Failure)
      → read_from digest number previous plan lines ≡ ok (es, final)
      → ((m : ℕ) (q : Option String) (r : Option Plan) → check_event digest m q r e ≡ err x)
      → read_from digest number previous plan (lines ++ event e ∷ []) ≡ err x
  read_from-refused [] number previous plan final es e x h c =
      read_from-stop number previous plan e x [] (c number previous plan)
  read_from-refused (line ∷ rest) number previous plan final es e x h c =
      let a = read_from-Accepted digest number previous plan final line rest es h in
      rw a.line_is (
        read_from-pass number previous plan a.head x (rest ++ event e ∷ []) a.checked (
          read_from-refused rest (number + 1) (some a.head.event_sha256)
            (plan_behind number plan a.head) final a.tail e x a.behind c))

  read-refused :
      (lines : List Line) (j : Journal) (e : JournalEvent) (x : Failure)
      → read digest (some lines) ≡ ok j
      → ((m : ℕ) (q : Option String) (r : Option Plan) → check_event digest m q r e ≡ err x)
      → read digest (some (lines ++ event e ∷ [])) ≡ err x
  unfolding read finish_read
  read-refused lines j e x h c =
      let (head, tail, parts, run) = read-parts digest lines j h in
      rw (read_from-refused lines 1 none none (some j.plan) j.events e x run c)

  module _ (path_name : String → String) (files : Files (List Line)) (lines : List Line)
      (j : Journal) (now : ℕ) (status : Status) (reason : Option String)
      (safe : is_safe_id j.plan.transaction_id ≡ true)
      (stored : files (path_name j.plan.transaction_id) ≡ some lines)
      (reads : read digest (some lines) ≡ ok j) where
    abbrev unreadable : Files (List Line)
    unreadable =
        write (path_name j.plan.transaction_id)
          (lines ++ event (status_event digest j now status reason) ∷ []) files

    -- For a safe ID, a stored journal that reads and is not committed, and a reason of more
    -- than 200 characters: the call writes the event behind the others and raises a
    -- validation error, and so does every load of the journal that it leaves.
    pub append_status-too_long :
        latest_is committed j.events ≡ false
        → reason_ok reason ≡ false
        → (append_status digest path_name j.plan.transaction_id now status reason files
            ≡ (err validation_error, unreadable))
          × (Journal.load digest path_name j.plan.transaction_id unreadable ≡ err validation_error)
    unfolding append_status append_unlocked Journal.load
    append_status-too_long open_ long =
        let refused : read digest
              (some (lines ++ event (status_event digest j now status reason) ∷ []))
            ≡ err validation_error =
          read-refused lines j _ validation_error reads (λ m q r.
            check_event-too_long m q r j.plan.transaction_id j.events now status reason long) in
        (
          rw safe (
              rw stored (
                rw reads (
                  rw open_ (
                    rw (stored, append_unlocked, existing_events)
                      (rw (reads, append_unlocked, existing_events)
                        (rw (stored, append_to) (rw refused))))))),
          rw safe (rw (write_self (path_name j.plan.transaction_id) _ files) refused),
        )
