-- ===== src/Journal/Chain/Prepare.antt =====
-- `TransactionJournal.prepare` of src/axcalib/runtime/transactions.py, first and later calls.
use axcalib.Prelude.{
  ℕ, String, ◌≡◌, refl, true, none, some, List, [], ◌∷◌, arith, eq_refl, nat_eq, string_eq,
  option_eq,
}
use axcalib.Exec.{ok}
use axcalib.Files.{Files, write}
use axcalib.Plans.{Plan}
use axcalib.Identifiers.{is_safe_id}
use axcalib.Journal.{
  prepared, Payload, JournalEvent, Line, event, plan_behind, finish_read, check_event, read_from,
  read, new_event, append_to, append_unlocked, existing_events, prepare,
}
use axcalib.Journal.Chain.{read_from-take}

module _ (digest : Payload → String) (path_name : String → String) (p : Plan) (now : ℕ)
    (safe : is_safe_id p.transaction_id ≡ true) where
  abbrev pub first_event : JournalEvent
  first_event = new_event digest p.transaction_id [] now prepared none (some p)

  first_event-checked : check_event digest 1 none none first_event ≡ ok first_event
  unfolding check_event new_event
  first_event-checked = ground (
    arith,
    eq_refl p.transaction_id,
    eq_refl (
        digest (record {
          transaction_id = p.transaction_id;
          sequence = 1;
          status = prepared;
          occurred_at = now;
          previous_event_sha256 = none;
          reason_code = none;
          plan = some p;
        })),
  )

  pub read-first :
      read digest (some (event first_event ∷ []))
      ≡ ok (record { plan = p; events = first_event ∷ [] })
  unfolding read finish_read plan_behind new_event
  read-first = rw (
      read_from-take digest 1 none none (some p) first_event [] [] first_event-checked
        (unfold read_from in refl))

  module _ (files : Files (List Line)) where
    -- For a plan with a safe ID and no journal, the call writes a journal of one line, the
    -- plan's first event, and returns it.
    pub prepare-new :
        files (path_name p.transaction_id) ≡ none
        → prepare digest path_name p now files ≡ (
          ok (record { plan = p; events = first_event ∷ [] }),
          write (path_name p.transaction_id) (event first_event ∷ []) files,
        )
    unfolding prepare append_unlocked
    prepare-new fresh = rw safe (
        rw (fresh, prepare)
          (rw (fresh, append_unlocked, existing_events, append_to)
            (rw (fresh, append_to) (rw read-first))))
