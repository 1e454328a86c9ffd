-- ===== src/Rollup.antt =====
-- `RollupProposalEngine` of src/personal_ai_brain/rollup_proposal.py: what it keeps, the states it
-- reads, and how a proposal is changed.
pub mod Steps
pub mod Projects
pub mod Lookups
pub mod Applied
pub mod Equal
pub mod Keys
pub mod Settled
pub mod Again
pub mod Agrees
mod Tests
use personal_ai_brain.Prelude.{
  ℕ, String, Bool, true, false, not, ◌||◌, Option, none, some, List, [], ◌∷◌, member, str_eq,
  if◌then◌else◌,
}
use personal_ai_brain.Prelude.Values.{
  Value, null, text, sequence, mapping, Values, nothing, item, Fields, end, field, get, or_null,
  str_of,
}
use personal_ai_brain.Prelude.Equality.{same}
use personal_ai_brain.Core.{Fetched, parsed}

pub record WorkstreamState : Type 0 where
  pub id : String
  pub path : String
  pub owner : String
  pub attention : String
  pub status : String
  pub last_verified : String
  pub raw : Fields

pub record RollupProposal : Type 0 where
  pub project_id : String
  pub project_name : String
  pub repository : String
  pub root_path : String
  pub basis_paths : List String
  pub changes : Fields
  pub manual_synthesis_required : Bool
  pub notes : List String

-- The injected reader at the engine's ref with the YAML parser behind it, Python's `str`, and
-- `date.fromisoformat`, which gives the ordinal of a date.
pub record Engine : Type 0 where
  pub get_text : String → String → Fetched
  pub show : Value → String
  pub fromisoformat : String → Option ℕ
  pub central_repository : String
  pub project_map_path : String

abbrev pub non_blocking_attention : List String
non_blocking_attention = "deferred" ∷ "parked" ∷ "none" ∷ "future" ∷ "background" ∷ []

abbrev pub non_blocking_statuses : List String
non_blocking_statuses =
    "future_unassigned" ∷ "future_project_not_initialized" ∷ "not_active" ∷ "deferred_manual" ∷ []

-- `_is_non_blocking`
abbrev pub is_non_blocking : WorkstreamState → Bool
is_non_blocking child =
    member child.attention non_blocking_attention || member child.status non_blocking_statuses

-- `changes[key] = value`
abbrev pub set_change : String → Value → Fields → Fields
set_change key value end = field key value end
set_change key value (field k v fs) =
    let later = set_change key value fs in
    if str_eq k key then field k value fs else field k v later

-- A change that is proposed if a test holds.
unfoldable pub set_if : Bool → String → Value → Fields → Fields
set_if true key value changes = set_change key value changes
set_if false key value changes = changes

abbrev pub texts_value : List String → Values
texts_value [] = nothing
texts_value (t ∷ ts) = item (text t) (texts_value ts)

abbrev pub as_mapping : Fetched → Option Fields
as_mapping (parsed (mapping fs)) = some fs
as_mapping f = none

-- `value or {}`, and the empty mapping for a value of another type.
abbrev pub mapping_or_empty : Option Value → Fields
mapping_or_empty (some (mapping fs)) = fs
mapping_or_empty v = end

module _ (engine : Engine) where
  -- `str(value)`
  abbrev pub str : Value → String
  str v = str_of engine.show v

  -- `root.get(key) != value`
  abbrev pub differs : Option Value → Value → Bool
  differs o v = not (same engine.show (or_null o) v)

  -- `_set_if_changed`
  abbrev pub set_if_changed : Fields → String → Value → Fields → Fields
  set_if_changed root key value changes = set_if (differs (get key root) value) key value changes

  -- `_load_yaml`: `none` is the exception, whichever it is.
  abbrev pub load_yaml : String → String → Option Fields
  load_yaml repository path = as_mapping (engine.get_text repository path)

  -- `_parse_date`
  unfoldable pub parse_date : String → Option ℕ
  parse_date value = if str_eq value "" then none else engine.fromisoformat value
