-- ===== src/Coordinator/Commit.antt =====
-- The journal of a plan while its transaction runs, and what each status that is set does to it.
use axcalib.Prelude.{ℕ, String, ◌≡◌, refl, true, false, Option, none, some, List, [], ◌∷◌, ◌++◌}
use axcalib.Exec.{ok}
use axcalib.Files.{Files, write, write_self}
use axcalib.Identifiers.{is_safe_id}
use axcalib.Plans.{Plan}
use axcalib.Journal.{
  Status, committed, prepared, status_rank, same_status, JournalEvent, Line, event, Journal,
  latest_is, latest_of, last_event, prepare, append_status, read, new_event, reason_ok,
}
use axcalib.Journal
use axcalib.Journal.Chain.Append.{append_status-open, read-append, status_event}
use axcalib.Journal.Chain.Prepare.{first_event, prepare-new, read-first}
use axcalib.Coordinator.{Hashing}

-- The directory holds a journal of the plan, with these events.
pub record Held (h : Hashing) (p : Plan) (files : Files (List Line)) (events : List JournalEvent)
    : Type 0 where
  pub lines : List Line
  pub safe : is_safe_id p.transaction_id ≡ true
  pub stored : files (h.path_name p.transaction_id) ≡ some lines
  pub reads : read h.event_digest (some lines) ≡ ok (record { plan = p; events = events })

-- The last status of a journal that grew by one event.
latest-snoc :
    (s : Status) (events : List JournalEvent) (x : JournalEvent)
    → latest_is s (events ++ x ∷ []) ≡ same_status x.payload.status s
latest-snoc s [] x = refl
latest-snoc s (e ∷ events) x = last e events
  where
    last :
        (e : JournalEvent) (es : List JournalEvent)
        → latest_is s (e ∷ es ++ x ∷ []) ≡ same_status x.payload.status s
    last e [] = refl
    last e (y ∷ es) = last y es

module _ (h : Hashing) (p : Plan) (files : Files (List Line)) (events : List JournalEvent)
    (held : Held h p files events) where
  abbrev pub journal : Journal
  journal = record { plan = p; events = events }

  -- The journal behind one more status.
  abbrev pub events_with : ℕ → Status → Option String → List JournalEvent
  events_with now status reason =
      events ++ status_event h.event_digest journal now status reason ∷ []

  abbrev pub files_with : ℕ → Status → Option String → Files (List Line)
  files_with now status reason =
      write (h.path_name p.transaction_id)
        (held.lines ++ event (status_event h.event_digest journal now status reason) ∷ []) files

  pub events_with-Held :
      (now : ℕ) (status : Status) (reason : Option String)
      → reason_ok reason ≡ true
      → Held h p (files_with now status reason) (events_with now status reason)
  events_with-Held now status reason fit = record {
    lines = held.lines ++ event (status_event h.event_digest journal now status reason) ∷ [];
    safe = held.safe;
    stored = write_self (h.path_name p.transaction_id) _ files;
    reads = read-append h.event_digest held.lines journal now status reason held.reads fit;
  }

  -- An open journal takes the status.
  pub append_status-Held :
      (now : ℕ) (status : Status) (reason : Option String)
      → latest_is committed events ≡ false
      → reason_ok reason ≡ true
      → append_status h.event_digest h.path_name p.transaction_id now status reason files ≡ (
        ok (record { plan = p; events = events_with now status reason }),
        files_with now status reason,
      )
  append_status-Held now status reason open_ fit =
      append_status-open h.event_digest h.path_name files held.lines journal now status reason
        held.safe held.stored held.reads open_ fit

  pub latest-events_with :
      (s : Status) (now : ℕ) (status : Status) (reason : Option String)
      → latest_is s (events_with now status reason) ≡ same_status status s
  unfolding new_event
  latest-events_with s now status reason = latest-snoc s events _

  pub load-Held : Journal.load h.event_digest h.path_name p.transaction_id files ≡ ok journal
  unfolding Journal.load
  load-Held = rw held.safe (rw held.stored held.reads)

-- What a plan's first event leaves.
module _ (h : Hashing) (p : Plan) (files : Files (List Line)) (now : ℕ)
    (safe : is_safe_id p.transaction_id ≡ true)
    (fresh : files (h.path_name p.transaction_id) ≡ none) where
  abbrev pub first : JournalEvent
  first = first_event h.event_digest h.path_name p now safe

  abbrev pub first_files : Files (List Line)
  first_files = write (h.path_name p.transaction_id) (event first ∷ []) files

  pub first-Held : Held h p first_files (first ∷ [])
  first-Held = record {
    lines = event first ∷ [];
    safe = safe;
    stored = write_self (h.path_name p.transaction_id) _ files;
    reads = read-first h.event_digest h.path_name p now safe;
  }

  pub prepare-first :
      prepare h.event_digest h.path_name p now files
      ≡ (ok (record { plan = p; events = first ∷ [] }), first_files)
  prepare-first = prepare-new h.event_digest h.path_name p now safe files fresh

  pub latest-first : latest_is committed (first ∷ []) ≡ false
  unfolding new_event
  latest-first = refl
