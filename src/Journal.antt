-- ===== src/Journal.antt =====
-- The append-only hash chain of one transaction (`TransactionJournal` of
-- src/axcalib/runtime/transactions.py). A journal file is the list of its lines. SHA-256 of an
-- event's canonical JSON is a parameter, `digest`, and so is the file name of an identity.
pub mod Chain
pub mod Tamper
pub mod Examples
use axcalib.Prelude.{
  ℕ, suc, ◌+◌, String, Bool, fits, true, false, not, ◌&&◌, ◌||◌, Option, none, some, List, [], ◌∷◌,
  ◌++◌, length, ◌==◌, nat_beq, nat_eq, string_eq, option_eq, is_some, is_none, if◌then◌else◌,
}
use axcalib.Exec.{Result, ok, err, Exec}
use axcalib.Failure.{
  Failure, transaction_error, transaction_conflict, transaction_integrity, validation_error,
}
use axcalib.Files.{Files, write}
use axcalib.Plans.{Plan, plan_beq}
use axcalib.Identifiers.{is_safe_id}

pub data Status : Type 0 where
  prepared applying reconcile_required reconciling blocked committed : Status

abbrev pub status_rank : Status → ℕ
status_rank prepared = 0
status_rank applying = 1
status_rank reconcile_required = 2
status_rank reconciling = 3
status_rank blocked = 4
status_rank committed = 5

abbrev pub same_status : Status → Status → Bool
same_status a b = nat_beq (status_rank a) (status_rank b)

-- What is hashed: an event's fields but for `event_sha256`. The limit of the reason code is
-- `reason_ok` below; the reader applies it to every line.
pub record Payload : Type 0 where
  pub transaction_id : String
  pub sequence : ℕ
  pub status : Status
  pub occurred_at : ℕ
  pub previous_event_sha256 : Option String
  pub reason_code : Option String
  pub plan : Option Plan

pub record JournalEvent : Type 0 where
  pub payload : Payload
  pub event_sha256 : String

-- A line of the file: empty, no JSON, JSON that is no object, an object that is no event (its fields
-- or their types and patterns are wrong; and whether its hash is right), or an event.
pub data Line : Type 0 where
  empty no_json no_object : Line
  no_event : Bool → Line
  event : JournalEvent → Line

pub record Journal : Type 0 where
  pub plan : Plan
  pub events : List JournalEvent

-- `events[-1]` of a list that begins with `e`.
abbrev pub last_event : JournalEvent → List JournalEvent → JournalEvent
last_event e [] = e
last_event e (x ∷ rest) = last_event x rest

abbrev pub latest_of : List JournalEvent → Option JournalEvent
latest_of [] = none
latest_of (e ∷ rest) = some (last_event e rest)

-- `latest_status is status`; a record that was read has at least one event.
abbrev pub latest_is : Status → List JournalEvent → Bool
latest_is s events = elim (latest_of events) [
  | none ↦ false
  | some e ↦ same_status e.payload.status s
]

-- The identity of an event differs from the plan's.
names_other : JournalEvent → Option Plan → Bool
names_other e none = false
names_other e (some p) = not (e.payload.transaction_id == p.transaction_id)

-- The plan known behind a line.
plan_behind : ℕ → Option Plan → JournalEvent → Option Plan
plan_behind number plan e = if number == 1 then e.payload.plan else plan

finish_read : Result Failure (List JournalEvent × Option Plan) → Result Failure Journal
finish_read (err x) = err x
finish_read (ok ([], plan)) = err transaction_integrity
finish_read (ok (e ∷ events, none)) = err transaction_integrity
finish_read (ok (e ∷ events, some p)) = ok (record { plan = p; events = e ∷ events })

cons_event :
    JournalEvent
    → Result Failure (List JournalEvent × Option Plan)
    → Result Failure (List JournalEvent × Option Plan)
cons_event e (err x) = err x
cons_event e (ok (events, plan)) = ok (e ∷ events, plan)

-- The model's `max_length` of a reason code.
abbrev pub reason_ok : Option String → Bool
reason_ok none = true
reason_ok (some s) = fits 200 s

module _ (digest : Payload → String) where
  -- The checks of `_read_unlocked` on an event at a line number, in their order.
  check_event : ℕ → Option String → Option Plan → JournalEvent → Result Failure JournalEvent
  unfolding names_other plan_behind
  check_event number previous plan e =
      if not (e.event_sha256 == digest e.payload)
      then err transaction_integrity
      else if not (reason_ok e.payload.reason_code)
      then err validation_error
      else if not (e.payload.sequence == number)
          || not (e.payload.previous_event_sha256 == previous)
      then err transaction_integrity
      else if number == 1 && (not (same_status e.payload.status prepared) || is_none e.payload.plan)
      then err transaction_integrity
      else if not (number == 1) && is_some e.payload.plan
      then err transaction_integrity
      else if names_other e (plan_behind number plan e)
      then err transaction_integrity
      else ok e

  check_line : ℕ → Option String → Option Plan → Line → Result Failure JournalEvent
  check_line number previous plan empty = err transaction_integrity
  check_line number previous plan no_json = err transaction_integrity
  check_line number previous plan no_object = err transaction_integrity
  check_line number previous plan (no_event true) = err validation_error
  check_line number previous plan (no_event false) = err transaction_integrity
  check_line number previous plan (event e) = check_event number previous plan e

  -- The loop of `_read_unlocked` from a line number on.
  read_from :
      ℕ → Option String → Option Plan → List Line → Result Failure (List JournalEvent × Option Plan)
  read_from number previous plan [] = ok ([], plan)
  read_from number previous plan (line ∷ rest) = elim (check_line number previous plan line) [
    | err x ↦ err x
    | ok e ↦
        cons_event e (read_from (number + 1) (some e.event_sha256) (plan_behind number plan e) rest)
  ]

  -- `_read_unlocked`
  unfoldable pub read : Option (List Line) → Result Failure Journal
  unfolding read_from finish_read check_line check_event cons_event
  read none = err transaction_error
  read (some lines) = finish_read (read_from 1 none none lines)

  -- The event that `_append_unlocked` writes behind the existing ones.
  unfoldable pub new_event :
      String → List JournalEvent → ℕ → Status → Option String → Option Plan → JournalEvent
  new_event transaction_id existing now status reason plan =
      let payload : Payload = record {
        transaction_id = transaction_id;
        sequence = length existing + 1;
        status = status;
        occurred_at = now;
        previous_event_sha256 = elim (latest_of existing) [
          | none ↦ none
          | some e ↦ some e.event_sha256
        ];
        reason_code = reason;
        plan = plan;
      } in
      record { payload = payload; event_sha256 = digest payload }

  abbrev lines_of : Option (List Line) → List Line
  lines_of none = []
  lines_of (some lines) = lines

  -- `_append_unlocked`: reads what is there, writes one more line, and reads the whole again.
  append_to :
      String
      → String
      → List JournalEvent
      → ℕ
      → Status
      → Option String
      → Option Plan
      → Exec (Files (List Line)) Failure Journal
  append_to path transaction_id existing now status reason plan files =
      let lines =
        lines_of (files path)
        ++ event (new_event transaction_id existing now status reason plan) ∷ [] in
      (read (some lines), write path lines files)

  existing_events : Option (List Line) → Result Failure (List JournalEvent)
  existing_events none = ok []
  existing_events (some lines) = elim (read (some lines)) [ err x ↦ err x | ok j ↦ ok j.events ]

  unfoldable pub append_unlocked :
      String
      → String
      → ℕ
      → Status
      → Option String
      → Option Plan
      → Exec (Files (List Line)) Failure Journal
  unfolding append_to existing_events
  append_unlocked path transaction_id now status reason plan files =
      elim (existing_events (files path)) [
        | err x ↦ (err x, files)
        | ok existing ↦ append_to path transaction_id existing now status reason plan files
      ]

  module _ (path_name : String → String) where
    prepared_again : Plan → Result Failure Journal → Result Failure Journal
    prepared_again p (err x) = err x
    prepared_again p (ok j) = if not (plan_beq j.plan p) then err transaction_conflict else ok j

    -- `TransactionJournal.prepare`; `path_for` refuses an unsafe identity.
    unfoldable pub prepare : Plan → ℕ → Exec (Files (List Line)) Failure Journal
    unfolding prepared_again
    prepare p now files =
        let path = path_name p.transaction_id in
        if not (is_safe_id p.transaction_id)
        then (err transaction_error, files)
        else if is_some (files path)
        then (prepared_again p (read (files path)), files)
        else append_unlocked path p.transaction_id now prepared none (some p) files

    status_behind :
        String
        → String
        → ℕ
        → Status
        → Option String
        → Result Failure Journal
        → Exec (Files (List Line)) Failure Journal
    status_behind path transaction_id now status reason (err x) files = (err x, files)
    status_behind path transaction_id now status reason (ok j) files =
        if latest_is committed j.events
        then (ok j, files)
        else append_unlocked path transaction_id now status reason none files

    -- `TransactionJournal.append_status`
    unfoldable pub append_status :
        String → ℕ → Status → Option String → Exec (Files (List Line)) Failure Journal
    unfolding status_behind
    append_status transaction_id now status reason files =
        let path = path_name transaction_id in
        if not (is_safe_id transaction_id)
        then (err transaction_error, files)
        else status_behind path transaction_id now status reason (read (files path)) files

    -- `TransactionJournal.load`
    unfoldable pub load : String → Files (List Line) → Result Failure Journal
    load transaction_id files =
        if not (is_safe_id transaction_id)
        then err transaction_error
        else read (files (path_name transaction_id))
