-- ===== src/Pipelines.antt =====
-- The execution context and the registry of pipelines (src/axcalib/pipelines/base.py). The payload
-- of a request and what a pipeline returns are types of the development's clients; the pipelines
-- themselves, and the validation of their requests and results, are functions of a binding.
use axcalib.Prelude.{
  ℕ, String, ◌≡◌, ◌↔◌, Bool, true, false, ◌&&◌, ◌||◌, Option, none, some, List, [], ◌∷◌, arith,
  eq_iff, leb, Eq, ◌==◌, nat_eq, string_eq, option_eq, list_eq, option_beq_iff, list_beq_iff,
  if◌then◌else◌,
}
use axcalib.Exec.{Result, ok, err}

abbrev item_beq : String × String → String × String → Bool
item_beq a b = a.0 == b.0 && a.1 == b.1

pub item_beq_iff : (a b : String × String) → (item_beq a b ≡ true) ↔ (a ≡ b)
item_beq_iff a b = (
  (λ h. ground (arith, eq_iff a.0 b.0, eq_iff a.1 b.1)),
  (λ h. ground (arith, eq_iff a.0 b.0, eq_iff a.1 b.1)),
)

instance abbrev pub item_eq : Eq (String × String)
item_eq = record { beq = item_beq; beq_iff = item_beq_iff }

-- Times are instants of one clock, so that the checks of time zones are met. `metadata` lists the
-- dictionary's items by key.
pub record Context : Type 0 where
  pub run_id : String
  pub actor_id : String
  pub actor_role : String
  pub idempotency_key : Option String
  pub expected_revision : Option ℕ
  pub requested_at : ℕ
  pub deadline_at : Option ℕ
  pub cancel_requested : Bool
  pub metadata : List (String × String)

-- `datetime.now(UTC) >= deadline_at`
abbrev pub past : Option ℕ → ℕ → Bool
past none now = false
past (some deadline) now = leb deadline now

-- `PipelineContext.cancellation_requested` at the time `now`
unfoldable pub cancellation_requested : Context → ℕ → Bool
cancellation_requested c now = c.cancel_requested || past c.deadline_at now

-- `_context_identity`: what must not change between the uses of one run ID.
unfoldable pub same_identity : Context → Context → Bool
same_identity a b =
    a.actor_id == b.actor_id
    && (a.actor_role == b.actor_role
        && (a.idempotency_key == b.idempotency_key
            && (a.expected_revision == b.expected_revision && a.metadata == b.metadata)))

pub same_identity_refl : (c : Context) → same_identity c c ≡ true
unfolding same_identity
same_identity_refl c = ground (
  arith,
  eq_iff c.actor_id c.actor_id,
  eq_iff c.actor_role c.actor_role,
  option_beq_iff string_eq c.idempotency_key c.idempotency_key,
  option_beq_iff nat_eq c.expected_revision c.expected_revision,
  list_beq_iff item_eq c.metadata c.metadata,
)

-- An exception by its class; `transient` for the instances of `TimeoutError` and `ConnectionError`.
pub record Exception : Type 0 where
  pub class_name : String
  pub transient : Bool

-- The `status` of a result's JSON object, and the rest of the object.
pub data StatusField : Type 0 where
  absent other_value : StatusField
  text : String → StatusField

pub record Output : Type 0 where
  pub status : StatusField
  pub body : String

-- A registered pipeline over the files `F`: `run` and `arun` are its two entry points.
pub record Binding (Request F : Type 0) : Type 0 where
  pub validate_request : Request → Result Exception Request
  pub run : Request → Context → F → Result Exception Output × F
  pub arun : Request → Context → F → Result Exception Output × F
  pub validate_result : Output → Result Exception Output

abbrev pub Registry : Type 0 → Type 0 → Type 0
Registry Request F = List ((String × String) × Binding Request F)

abbrev key_error : Exception
key_error = record { class_name = "KeyError"; transient = false }

-- `PipelineRegistry.register`, from the test of the key on.
pub data RegisterError : Type 0 where
  already_registered empty_name : RegisterError

module _ {Request F : Type 0} where
  -- `self._bindings[(pipeline_id, version)]`, and its `KeyError`
  unfoldable pub binding :
      String → String → Registry Request F → Result Exception (Binding Request F)
  binding id version [] = err key_error
  binding id version (((i, v), b) ∷ rest) =
      if i == id && v == version then ok b else binding id version rest

  abbrev is_bound : Result Exception (Binding Request F) → Bool
  is_bound (ok b) = true
  is_bound (err x) = false

  unfoldable pub register :
      String
      → String
      → Binding Request F
      → Registry Request F
      → Result RegisterError (Registry Request F)
  unfolding binding
  register id version b registry =
      if is_bound (binding id version registry)
      then err already_registered
      else if id == "" || version == ""
      then err empty_name
      else ok (((id, version), b) ∷ registry)

  -- After a registration that succeeds, the pipeline is found under its key, and every other
  -- key finds what it found before.
  pub binding-register :
      (id version : String) (b : Binding Request F) (registry registry' : Registry Request F)
      (i v : String)
      → register id version b registry ≡ ok registry'
      → binding i v registry' ≡ (if id == i && version == v then ok b else binding i v registry)
  unfolding register binding
  binding-register id version b registry registry' i v h = ground arith
