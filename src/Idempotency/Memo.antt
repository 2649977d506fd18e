-- ===== src/Idempotency/Memo.antt =====
-- What the idempotency records promise: a table of the requests that were made and of the results
-- that succeeded, with no stages and no times (src/axcalib/runtime/idempotency.py).
use axcalib.Prelude.{
  ℕ, String, not, ◌&&◌, Option, none, some, List, [], ◌∷◌, ◌==◌, string_eq, if◌then◌else◌,
}
use axcalib.Exec.{Result, ok, err}
use axcalib.Files.{Files, write}
use axcalib.Identifiers.{is_safe_id}
use axcalib.Idempotency.{
  Stage, running, retryable_failure, succeeded, Entry, IdempotencyError, invalid_key, conflict,
  raised, Codec, Store, execute, validated,
}

pub record Known (J : Type 0) : Type 0 where
  pub operation : String
  pub request_sha256 : String
  pub result : Option J

-- A request and the call that it makes when it is not answered from the table.
pub record Call (R E W : Type 0) : Type 0 where
  pub key : String
  pub operation : String
  pub request_sha256 : String
  pub now : ℕ
  pub later : ℕ
  pub perform : W → Result E R × W

abbrev pub Table : Type 0 → Type 0
Table J = String → Option (Known J)

abbrev pub finished_result : {J : Type 0} → Stage J → Option J
finished_result running = none
finished_result (retryable_failure name) = none
finished_result (succeeded j) = some j

abbrev pub known : {J : Type 0} → Option (Entry J) → Option (Known J)
known none = none
known (some x) = some (record {
  operation = x.operation;
  request_sha256 = x.request_sha256;
  result = finished_result x.stage;
})

-- The table that a directory stands for.
abbrev pub table : {J : Type 0} → Files (Entry J) → Table J
table files name = known (files name)

abbrev pub first : {A B C : Type 0} → A × B × C → A
first (a, b, c) = a

module _ {R J E W : Type 0} (codec : Codec R J E) where
  abbrev pub remember : Call R E W → Option J → Table J → Table J
  remember c result t =
      write (codec.file_name c.key)
        (record { operation = c.operation; request_sha256 = c.request_sha256; result = result }) t

  abbrev pub answer :
      Call R E W → Table J → Result E R × W → Result (IdempotencyError E) R × Table J × W
  answer c t (ok r, w) = (ok r, remember c (some (codec.dump r)) t, w)
  answer c t (err e, w) = (err (raised e), remember c none t, w)

  abbrev pub recall :
      Option J → Call R E W → Table J → W → Result (IdempotencyError E) R × Table J × W
  recall none c t w = answer c t (c.perform w)
  recall (some j) c t w = (validated (codec.validate j), t, w)

  abbrev pub consult :
      Option (Known J) → Call R E W → Table J → W → Result (IdempotencyError E) R × Table J × W
  consult none c t w = answer c t (c.perform w)
  consult (some k) c t w =
      if not (k.operation == c.operation && k.request_sha256 == c.request_sha256)
      then (err conflict, t, w)
      else recall k.result c t w

  -- One request, by the table alone.
  unfoldable pub ask : Call R E W → Table J → W → Result (IdempotencyError E) R × Table J × W
  ask c t w =
      if not (is_safe_id c.key)
      then (err invalid_key, t, w)
      else consult (t (codec.file_name c.key)) c t w

  -- The answers to a sequence of requests, and the world behind them.
  abbrev pub cons_answer :
      Result (IdempotencyError E) R
      → List (Result (IdempotencyError E) R) × W
      → List (Result (IdempotencyError E) R) × W
  cons_answer a (rest, w) = (a ∷ rest, w)

  unfoldable pub executes : List (Call R E W) → Store J W → List (Result (IdempotencyError E) R) × W
  executes [] s = ([], s.world)
  executes (c ∷ cs) s =
      let (a, s') = execute codec c.key c.operation c.request_sha256 c.now c.later c.perform s in
      cons_answer a (executes cs s')

  unfoldable pub asks : List (Call R E W) → Table J → W → List (Result (IdempotencyError E) R) × W
  asks [] t w = ([], w)
  asks (c ∷ cs) t w = let (a, t', w') = ask c t w in cons_answer a (asks cs t' w')
