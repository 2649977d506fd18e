-- ===== src/Jobs/Payload.antt =====
-- The payload of a queued job (`_validate_payload` and `_sensitive_location` of
-- src/axcalib/runtime/worker.py). `casefold` and the size of the canonical JSON are arguments.
use axcalib.Prelude.{
  ℕ, String, Bool, true, false, Option, none, some, List, [], ◌∷◌, any, ltb, is_some, ◌==◌,
  string_eq, if◌then◌else◌,
}

mutual
  -- A JSON value; `scalar` holds what is neither an object nor an array.
  pub data Json : Type 0 where
    scalar : String → Json
    array : Items → Json
    object : Members → Json

  pub data Items : Type 0 where
    no_items : Items
    item : Json → Items → Items

  pub data Members : Type 0 where
    no_members : Members
    member : String → Json → Members → Members

abbrev sensitive_keys : List String
sensitive_keys =
    "access_token" ∷ "api_key" ∷ "authorization" ∷ "credential" ∷ "password" ∷ "refresh_token"
    ∷ "secret" ∷ []

abbrev first_of : Option String → Option String → Option String
first_of none later = later
first_of (some key) later = some key

-- What the queue needs of the standard library.
pub record PayloadRules : Type 0 where
  pub casefold : String → String
  pub size : Json → ℕ

module _ (rules : PayloadRules) where
  abbrev pub is_sensitive : String → Bool
  is_sensitive key = any (λ k. k == rules.casefold key) sensitive_keys

  -- `_sensitive_location`: the first forbidden key, outermost first.
  mutual
    pub sensitive_location : Json → Option String
    sensitive_location (scalar s) = none
    sensitive_location (array items) = sensitive_item items
    sensitive_location (object members) = sensitive_member members

    sensitive_item : Items → Option String
    sensitive_item no_items = none
    sensitive_item (item v rest) = first_of (sensitive_location v) (sensitive_item rest)

    sensitive_member : Members → Option String
    sensitive_member no_members = none
    sensitive_member (member key v rest) =
        if is_sensitive key
        then some key
        else first_of (sensitive_location v) (sensitive_member rest)

  -- `_validate_payload`
  unfoldable pub payload_ok : Json → Bool
  unfolding sensitive_location sensitive_item sensitive_member
  payload_ok payload =
      if ltb 1048576 (rules.size payload)
      then false
      else if is_some (sensitive_location payload)
      then false
      else true
