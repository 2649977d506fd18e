-- ===== src/Identifiers.antt =====
-- The safe identifiers `^[A-Za-z0-9][A-Za-z0-9._:-]{0,127}$` of runs, transactions and workers
-- (`SAFE_ID_PATTERN` of src/axcalib/runtime/worker.py, `TRANSACTION_ID_PATTERN` of
-- src/axcalib/runtime/transactions.py, `KEY_PATTERN` of src/axcalib/runtime/idempotency.py).
use Prim.Native.Char.{code}
use axcalib.Prelude.{ℕ, zero, suc, String, Bool, true, false, ◌&&◌, ◌||◌, leb, nat_beq}

abbrev is_alphanumeric : ℕ → Bool
is_alphanumeric c =
    (leb b'A' c && leb c b'Z') || ((leb b'a' c && leb c b'z') || (leb b'0' c && leb c b'9'))

abbrev is_id_char : ℕ → Bool
is_id_char c =
    is_alphanumeric c || (nat_beq c b'.' || (nat_beq c b'_' || (nat_beq c b':' || nat_beq c b'-')))

-- At most `n` characters, all of the second class.
at_most : ℕ → String → Bool
at_most n String.[] = true
at_most zero (String.◌∷◌ c s) = false
at_most (suc n) (String.◌∷◌ c s) = is_id_char (code c) && at_most n s

unfoldable pub is_safe_id : String → Bool
unfolding at_most
is_safe_id String.[] = false
is_safe_id (String.◌∷◌ c s) = is_alphanumeric (code c) && at_most 127 s

-- `^[A-Za-z0-9][A-Za-z0-9._-]{0,127}$` (`SAFE_NAME` of src/axcalib/programs/repository.py).
abbrev is_name_char : ℕ → Bool
is_name_char c = is_alphanumeric c || (nat_beq c b'.' || (nat_beq c b'_' || nat_beq c b'-'))

named_at_most : ℕ → String → Bool
named_at_most n String.[] = true
named_at_most zero (String.◌∷◌ c s) = false
named_at_most (suc n) (String.◌∷◌ c s) = is_name_char (code c) && named_at_most n s

unfoldable pub is_safe_name : String → Bool
unfolding named_at_most
is_safe_name String.[] = false
is_safe_name (String.◌∷◌ c s) = is_alphanumeric (code c) && named_at_most 127 s
