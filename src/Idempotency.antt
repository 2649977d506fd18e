-- ===== src/Idempotency.antt =====
-- Idempotency records of resumable pipelines (src/axcalib/runtime/idempotency.py). A record's file
-- has a name made of the key's digest. The results' serialisation and SHA-256 are parameters, as is
-- the call, which works on a world of its own and may raise.
pub mod Laws
pub mod Memo
mod Examples
use axcalib.Prelude.{
  ℕ, String, Bool, true, false, not, ◌&&◌, Option, none, some, ◌==◌, string_eq, if◌then◌else◌,
}
use axcalib.Exec.{Result, ok, err}
use axcalib.Files.{Files, write}
use axcalib.Identifiers.{is_safe_id}

-- The `status` of a record, with what the record holds in it alone.
pub data Stage (J : Type 0) : Type 0 where
  running : Stage J
  retryable_failure : String → Stage J
  succeeded : J → Stage J

pub record Entry (J : Type 0) : Type 0 where
  pub key : String
  pub operation : String
  pub request_sha256 : String
  pub stage : Stage J
  pub updated_at : ℕ

pub data IdempotencyError (E : Type 0) : Type 0 where
  invalid_key conflict invalid_result : IdempotencyError E
  raised : E → IdempotencyError E

-- What the code uses of pydantic and of hashing.
pub record Codec (R J E : Type 0) : Type 0 where
  pub dump : R → J
  pub validate : J → Option R
  pub file_name : String → String
  pub error_name : E → String

-- The idempotency directory and the world that calls work on.
pub record Store (J W : Type 0) : Type 0 where
  pub files : Files (Entry J)
  pub world : W

abbrev pub started : {J : Type 0} → String → String → String → ℕ → Entry J
started key operation request_sha256 now = record {
  key = key;
  operation = operation;
  request_sha256 = request_sha256;
  stage = running;
  updated_at = now;
}

abbrev pub validated : {E R : Type 0} → Option R → Result (IdempotencyError E) R
validated none = err invalid_result
validated (some r) = ok r

abbrev pub is_same : {J : Type 0} → Entry J → Entry J → Bool
is_same x y = y.operation == x.operation && y.request_sha256 == x.request_sha256

module _ {R J E W : Type 0} (codec : Codec R J E) where
  -- `LocalIdempotencyStore._write`
  abbrev pub put : Entry J → Store J W → Store J W
  put x s = record s { files = write (codec.file_name x.key) x s.files }

  -- Behind the call, which returned or raised.
  abbrev pub called :
      Entry J → ℕ → Files (Entry J) → Result E R × W → Result (IdempotencyError E) R × Store J W
  called x now files (ok r, w) = (
    ok r,
    put (record x { stage = succeeded (codec.dump r); updated_at = now })
        (record { files = files; world = w }),
  )
  called x now files (err e, w) = (
    err (raised e),
    put (record x { stage = retryable_failure (codec.error_name e); updated_at = now })
        (record { files = files; world = w }),
  )

  unfoldable pub run :
      Entry J → ℕ → (W → Result E R × W) → Store J W → Result (IdempotencyError E) R × Store J W
  run x now call s = called x now (put x s).files (call s.world)

  abbrev pub resume :
      Stage J
      → Entry J
      → ℕ
      → (W → Result E R × W)
      → Store J W
      → Result (IdempotencyError E) R × Store J W
  resume (succeeded j) x now call s = (validated (codec.validate j), s)
  resume running x now call s = run x now call s
  resume (retryable_failure name) x now call s = run x now call s

  abbrev pub decide_on :
      Option (Entry J)
      → Entry J
      → ℕ
      → (W → Result E R × W)
      → Store J W
      → Result (IdempotencyError E) R × Store J W
  decide_on none x now call s = run x now call s
  decide_on (some y) x now call s =
      if not (is_same x y) then (err conflict, s) else resume y.stage x now call s

  -- `LocalIdempotencyStore.execute`; `now` and `later` are the times before and behind the call.
  unfoldable pub execute :
      String
      → String
      → String
      → ℕ
      → ℕ
      → (W → Result E R × W)
      → Store J W
      → Result (IdempotencyError E) R × Store J W
  execute key operation request_sha256 now later call s =
      if not (is_safe_id key)
      then (err invalid_key, s)
      else decide_on (s.files (codec.file_name key)) (started key operation request_sha256 now)
          later call s
