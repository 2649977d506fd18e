-- ===== src/Journal/Chain/Append.antt =====
-- A journal with one more line, and `append_status` of src/axcalib/runtime/transactions.py.
pub mod Reason
use axcalib.Prelude.{
  ℕ, ◌+◌, String, ◌≡◌, true, false, Option, none, some, List, [], ◌∷◌, ◌++◌, length, arith, nat_eq,
  string_eq, option_eq,
}
use axcalib.Exec.{Result, ok, err}
use axcalib.Failure.{Failure}
use axcalib.Files.{Files, write}
use axcalib.Plans.{Plan}
use axcalib.Identifiers.{is_safe_id}
use axcalib.Journal.{
  Status, committed, Payload, JournalEvent, Line, event, Journal, latest_is, plan_behind,
  finish_read, read_from, read, new_event, append_to, append_unlocked, existing_events,
  append_status, status_behind, reason_ok,
}
use axcalib.Journal.Chain.{IsChain, read_from-snoc, new_event-checked, read_from-IsChain}

module _ (digest : Payload → String) where
  finish_read-parts :
      (r : Result Failure (List JournalEvent × Option Plan)) (j : Journal)
      → finish_read r ≡ ok j
      → (e : JournalEvent) × (es : List JournalEvent) × (j.events ≡ e ∷ es)
        × (r ≡ ok (j.events, some j.plan))
  unfolding finish_read
  finish_read-parts (ok (e ∷ es, some p)) j h = (e, es, ground arith, ground arith)
  finish_read-parts (ok ([], p)) j h = absurd (cc h)
  finish_read-parts (ok (e ∷ es, none)) j h = absurd (cc h)
  finish_read-parts (err x) j h = absurd (cc h)

  -- A journal that was read has a first event, and the loop returned its plan.
  read-parts :
      (lines : List Line) (j : Journal)
      → read digest (some lines) ≡ ok j
      → (e : JournalEvent) × (es : List JournalEvent) × (j.events ≡ e ∷ es)
        × (read_from digest 1 none none lines ≡ ok (j.events, some j.plan))
  unfolding read
  read-parts lines j h = finish_read-parts (read_from digest 1 none none lines) j h

  -- A journal that is read back is a hash chain: its events are numbered from 1, each hashes
  -- itself and names the hash before it.
  pub read-IsChain :
      (lines : List Line) (j : Journal)
      → read digest (some lines) ≡ ok j
      → IsChain digest 1 none j.events
  read-IsChain lines j h =
      let (e, es, parts, run) = read-parts lines j h in
      read_from-IsChain digest lines 1 none none (some j.plan) j.events run

  abbrev pub status_event : Journal → ℕ → Status → Option String → JournalEvent
  status_event j now status reason =
      new_event digest j.plan.transaction_id j.events now status reason none

  plan_behind-later :
      (e : JournalEvent) (es : List JournalEvent) (plan : Option Plan) (x : JournalEvent)
      → plan_behind (length (e ∷ es) + 1) plan x ≡ plan
  unfolding plan_behind
  plan_behind-later e es plan x = ground arith

  append_parts :
      (lines : List Line) (p : Plan) (e : JournalEvent) (es : List JournalEvent) (now : ℕ)
      (status : Status) (reason : Option String)
      → read_from digest 1 none none lines ≡ ok (e ∷ es, some p)
      → reason_ok reason ≡ true
      → let new = new_event digest p.transaction_id (e ∷ es) now status reason none in
        read digest (some (lines ++ event new ∷ []))
        ≡ ok (record { plan = p; events = (e ∷ es) ++ new ∷ [] })
  unfolding read finish_read
  append_parts lines p e es now status reason h fit =
      let new = new_event digest p.transaction_id (e ∷ es) now status reason none in
      rw
        (read_from-snoc digest lines 1 (length (e ∷ es) + 1) none none (some p) (e ∷ es) new h
          (omega arith) (new_event-checked digest p e es now status reason fit))
        (rw (plan_behind-later e es (some p) new))

  -- Where a file of lines reads as a journal, the file with one more line, the status event
  -- that follows, with a reason of at most 200 characters, reads as the journal with that
  -- event behind the others.
  pub read-append :
      (lines : List Line) (j : Journal) (now : ℕ) (status : Status) (reason : Option String)
      → read digest (some lines) ≡ ok j
      → reason_ok reason ≡ true
      → read digest (some (lines ++ event (status_event j now status reason) ∷ []))
        ≡ ok (record j { events = j.events ++ status_event j now status reason ∷ [] })
  read-append lines j now status reason h fit =
      let (e, es, parts, run) = read-parts lines j h in
      rw parts (append_parts lines j.plan e es now status reason (rw parts at run) fit)

  module _ (path_name : String → String) (files : Files (List Line)) (lines : List Line)
      (j : Journal) (now : ℕ) (status : Status) (reason : Option String)
      (safe : is_safe_id j.plan.transaction_id ≡ true)
      (stored : files (path_name j.plan.transaction_id) ≡ some lines)
      (reads : read digest (some lines) ≡ ok j) where
    pub append_status-open :
        latest_is committed j.events ≡ false
        → reason_ok reason ≡ true
        → append_status digest path_name j.plan.transaction_id now status reason files ≡ (
          ok (record j { events = j.events ++ status_event j now status reason ∷ [] }),
          write
              (path_name j.plan.transaction_id)
              (lines ++ event (status_event j now status reason) ∷ [])
              files,
        )
    unfolding append_status append_unlocked
    append_status-open open_ fit = rw safe (rw stored (rw reads (rw open_ appended)))
      where
        appended :
            append_unlocked digest
              (path_name j.plan.transaction_id)
              j.plan.transaction_id
              now
              status
              reason
              none
              files
            ≡ (
              ok (record j { events = j.events ++ status_event j now status reason ∷ [] }),
              write
                  (path_name j.plan.transaction_id)
                  (lines ++ event (status_event j now status reason) ∷ [])
                  files,
            )
        appended =
            rw (stored, append_unlocked, existing_events)
              (rw (reads, append_unlocked, existing_events)
                (rw (stored, append_to) (rw (read-append lines j now status reason reads fit))))
