-- ===== src/Idempotency/Examples.antt =====
-- A store of which one request succeeds.
use axcalib.Prelude.{ℕ, suc, String, ◌≡◌, refl, none, some, [], ◌∷◌, map}
use axcalib.Exec.{Result, ok}
use axcalib.Identifiers.{is_safe_id}
use axcalib.Idempotency.{Codec, Store, IdempotencyError, execute, run}
use axcalib.Idempotency.Memo.{Call, executes, asks, table}
use axcalib.Idempotency.Laws.{executed_once, executes-asks, later_answer}

abbrev codec : Codec ℕ ℕ String
codec = record {
  dump = λ r. r;
  validate = λ j. some j;
  file_name = λ key. key;
  error_name = λ e. e;
}

-- Each call counts itself in the world.
abbrev call : Call ℕ String ℕ
call = record {
  key = "k";
  operation = "op";
  request_sha256 = "d";
  now = 1;
  later = 2;
  perform = λ w. (ok w, suc w);
}

abbrev other : Call ℕ String ℕ
other = record call { request_sha256 = "e" }

abbrev store : Store ℕ ℕ
store = record { files = λ _. none; world = 7 }

abbrev behind : {J W : Type 0} → Result (IdempotencyError String) ℕ × Store J W → Store J W
behind (a, s) = s

abbrev after : Store ℕ ℕ
after = behind (execute codec "k" "op" "d" 1 2 (λ w. (ok w, suc w)) store)

executed_once_example :
    executes codec (call ∷ other ∷ []) after
    ≡ (map (later_answer codec call 7) (call ∷ other ∷ []), after.world)
unfolding execute run is_safe_id
executed_once_example = executed_once codec call 7 store after (call ∷ other ∷ []) refl refl refl

executes-asks_example :
    executes codec (call ∷ other ∷ call ∷ []) store
    ≡ asks codec (call ∷ other ∷ call ∷ []) (table store.files) store.world
executes-asks_example = executes-asks codec (call ∷ other ∷ call ∷ []) store
