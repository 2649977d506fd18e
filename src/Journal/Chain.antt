-- ===== src/Journal/Chain.antt =====
-- The journal as a hash chain: what `_read_unlocked` of src/axcalib/runtime/transactions.py accepts.
pub mod Append
pub mod Prepare
use axcalib.Prelude.{
  ℕ, suc, ◌+◌, String, ◌≡◌, refl, sym, ap, ◌∙◌, Bool, true, false, not, ◌&&◌, ◌||◌, Option, none,
  some, List, [], ◌∷◌, ◌++◌, map, subst, inl, inr, length, length-append, arith, eq_iff, eq_refl,
  ◌==◌, nat_eq, string_eq, option_eq, option_beq_iff, is_some, is_none, if◌then◌else◌,
}
use axcalib.Exec.{Result, ok, err, Result-cases}
use axcalib.Failure.{Failure, transaction_conflict}
use axcalib.Files.{Files, write, write_self}
use axcalib.Plans.{Plan, plan_beq, plan_beq_iff}
use axcalib.Identifiers.{is_safe_id}
use axcalib.Journal.{
  Status, prepared, committed, same_status, status_rank, Payload, JournalEvent, Line, event,
  Journal, last_event, latest_of, latest_is, names_other, plan_behind, finish_read, cons_event,
  check_event, check_line, read_from, read, new_event, append_to, append_unlocked, existing_events,
  prepare, prepared_again, append_status, status_behind, load, reason_ok,
}
use axcalib.Journal

-- The hash behind a list of events.
abbrev last_hash : Option String → List JournalEvent → Option String
last_hash previous [] = previous
last_hash previous (e ∷ es) = last_hash (some e.event_sha256) es

module _ (digest : Payload → String) where
  -- Numbered from `number`, each event hashes itself and names the hash before it.
  abbrev pub IsChain : ℕ → Option String → List JournalEvent → Type 0
  IsChain number previous [] = Unit
  IsChain number previous (e ∷ es) =
      (e.event_sha256 ≡ digest e.payload)
      × (e.payload.sequence ≡ number)
      × (e.payload.previous_event_sha256 ≡ previous)
      × IsChain (number + 1) (some e.event_sha256) es

  check_event-same :
      (number : ℕ) (previous : Option String) (plan : Option Plan) (x e : JournalEvent)
      → check_event digest number previous plan x ≡ ok e
      → x ≡ e
  unfolding check_event
  check_event-same number previous plan x e h = ground arith

  check_line-event :
      (number : ℕ) (previous : Option String) (plan : Option Plan) (line : Line) (e : JournalEvent)
      → check_line digest number previous plan line ≡ ok e
      → (line ≡ event e) × (check_event digest number previous plan e ≡ ok e)
  unfolding check_line
  check_line-event number previous plan (event x) e h =
      let same = check_event-same number previous plan x e h in
      (ap event same, subst (λ y. check_event digest number previous plan y ≡ ok e) same h)
  check_line-event number previous plan (Line.no_event true) e h = absurd (cc h)
  check_line-event number previous plan (Line.no_event false) e h = absurd (cc h)
  check_line-event number previous plan _ e h = absurd (cc h)

  check_event-links :
      (number : ℕ) (previous : Option String) (plan : Option Plan) (e : JournalEvent)
      → check_event digest number previous plan e ≡ ok e
      → (e.event_sha256 ≡ digest e.payload)
        × (e.payload.sequence ≡ number)
        × (e.payload.previous_event_sha256 ≡ previous)
  unfolding check_event
  check_event-links number previous plan e h = ground (
    arith,
    eq_iff e.event_sha256 (digest e.payload),
    option_beq_iff string_eq e.payload.previous_event_sha256 previous,
  )

  -- What the loop's acceptance of a line and of the rest shows.
  record Accepted (number : ℕ) (previous : Option String) (plan final : Option Plan) (line : Line)
      (rest : List Line) (es : List JournalEvent) : Type 0 where
    head : JournalEvent
    tail : List JournalEvent
    parts : es ≡ head ∷ tail
    line_is : line ≡ event head
    checked : check_event digest number previous plan head ≡ ok head
    behind :
        read_from digest (number + 1) (some head.event_sha256) (plan_behind number plan head) rest
        ≡ ok (tail, final)

  cons_event-ok :
      (e : JournalEvent) (r : Result Failure (List JournalEvent × Option Plan))
      (es : List JournalEvent) (final : Option Plan)
      → cons_event e r ≡ ok (es, final)
      → (tail : List JournalEvent) × (r ≡ ok (tail, final)) × (es ≡ e ∷ tail)
  unfolding cons_event
  cons_event-ok e (ok (tail, p)) es final h = (tail, ground arith, ground arith)
  cons_event-ok e (err x) es final h = absurd (cc h)

  read_from-Accepted :
      (number : ℕ) (previous : Option String) (plan final : Option Plan) (line : Line)
      (rest : List Line) (es : List JournalEvent)
      → read_from digest number previous plan (line ∷ rest) ≡ ok (es, final)
      → Accepted number previous plan final line rest es
  unfolding read_from
  read_from-Accepted number previous plan final line rest es h =
      elim (Result-cases (check_line digest number previous plan line)) [
        | inl (x, e) ↦ absurd (ground arith)
        | inr (x, e) ↦
            let (tail, r, parts) =
              cons_event-ok x
                (read_from digest (number + 1) (some x.event_sha256) (plan_behind number plan x)
                  rest)
                es final (ground arith) in
            let (line_is, checked) = check_line-event number previous plan line x e in
            record {
              head = x;
              tail = tail;
              parts = parts;
              line_is = line_is;
              checked = checked;
              behind = r;
            }
      ]

  read_from-nil :
      (number : ℕ) (previous : Option String) (plan final : Option Plan) (es : List JournalEvent)
      → read_from digest number previous plan [] ≡ ok (es, final)
      → (es ≡ []) × (plan ≡ final)
  unfolding read_from
  read_from-nil number previous plan final es h = (ground arith, ground arith)

  read_from-IsChain :
      (lines : List Line) (number : ℕ) (previous : Option String) (plan final : Option Plan)
      (es : List JournalEvent)
      → read_from digest number previous plan lines ≡ ok (es, final)
      → IsChain number previous es
  read_from-IsChain [] number previous plan final es h =
      rw (read_from-nil number previous plan final es h).0 tt
  read_from-IsChain (line ∷ rest) number previous plan final es h =
      let a = read_from-Accepted number previous plan final line rest es h in
      let links = check_event-links number previous plan a.head a.checked in
      rw a.parts (links.0, links.1, links.2, read_from-IsChain rest _ _ _ final a.tail a.behind)

  -- The other way: a line that passes and a rest that reads.
  read_from-take :
      (number : ℕ) (previous : Option String) (plan final : Option Plan) (e : JournalEvent)
      (rest : List Line) (tail : List JournalEvent)
      → check_event digest number previous plan e ≡ ok e
      → read_from digest (number + 1) (some e.event_sha256) (plan_behind number plan e) rest
        ≡ ok (tail, final)
      → read_from digest number previous plan (event e ∷ rest) ≡ ok (e ∷ tail, final)
  unfolding read_from check_line cons_event
  read_from-take number previous plan final e rest tail c r = rw (c, read_from, check_line) (rw r)

  -- One more line that passes its check is one more event.
  read_from-snoc :
      (lines : List Line) (number m : ℕ) (previous : Option String) (plan final : Option Plan)
      (es : List JournalEvent) (e : JournalEvent)
      → read_from digest number previous plan lines ≡ ok (es, final)
      → m ≡ number + length es
      → check_event digest m (last_hash previous es) final e ≡ ok e
      → read_from digest number previous plan (lines ++ event e ∷ [])
        ≡ ok (es ++ e ∷ [], plan_behind m final e)
  read_from-snoc [] number m previous plan final es e h k c =
      let (nil, same) = read_from-nil number previous plan final es h in
      let at : m ≡ number = rw nil at k ∙ omega arith in
      rw (nil, at, ← same)
        (read_from-take number previous plan _ e [] [] (rw same (rw (← at) (rw nil at c)))
          (unfold read_from in refl))
  read_from-snoc (line ∷ rest) number m previous plan final es e h k c =
      let a = read_from-Accepted number previous plan final line rest es h in
      rw (a.line_is, a.parts)
        (read_from-take number previous plan _ a.head (rest ++ event e ∷ []) (a.tail ++ e ∷ [])
          a.checked
          (read_from-snoc rest (number + 1) m (some a.head.event_sha256)
            (plan_behind number plan a.head) final a.tail e a.behind (rw a.parts at k ∙ omega arith)
            (rw a.parts at c)))

  -- The hash behind the events of a journal is the one that an append names.
  last_hash-latest :
      (e : JournalEvent) (es : List JournalEvent)
      → last_hash (some e.event_sha256) es ≡ some (last_event e es).event_sha256
  last_hash-latest e [] = refl
  last_hash-latest e (x ∷ es) = last_hash-latest x es

  new_event-checked :
      (p : Plan) (e : JournalEvent) (es : List JournalEvent) (now : ℕ) (status : Status)
      (reason : Option String)
      → reason_ok reason ≡ true
      → let new = new_event digest p.transaction_id (e ∷ es) now status reason none in
        check_event digest (length (e ∷ es) + 1) (last_hash none (e ∷ es)) (some p) new ≡ ok new
  unfolding check_event new_event
  new_event-checked p e es now status reason fit = ground (
    arith,
    fit,
    last_hash-latest e es,
    eq_refl p.transaction_id,
    eq_refl (
        digest (record {
          transaction_id = p.transaction_id;
          sequence = length (e ∷ es) + 1;
          status = status;
          occurred_at = now;
          previous_event_sha256 = some (last_event e es).event_sha256;
          reason_code = reason;
          plan = none;
        })),
    (option_beq_iff string_eq (some (last_event e es).event_sha256) (last_hash none (e ∷ es))).1,
  )
