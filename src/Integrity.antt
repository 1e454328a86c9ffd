-- ===== src/Integrity.antt =====
-- `StateIntegrityChecker` of src/personal_ai_brain/state_integrity.py: what it keeps, the states
-- that it reads, and the values that it iterates over.
pub mod Sets
pub mod Checks
pub mod Projects
pub mod Differences
pub mod Newest
pub mod Blocks
pub mod Consistent
mod Tests
use personal_ai_brain.Prelude.{
  ℕ, String, Bool, true, false, ◌||◌, Option, none, some, List, [], ◌∷◌, member, str_eq, Result, ok,
  err, if◌then◌else◌,
}
use personal_ai_brain.Prelude.Values.{
  Value, null, boolean, integer, scalar, text, sequence, mapping, Values, nothing, item, Fields,
  end, field, get, get_or, is_falsy, str_of,
}
use personal_ai_brain.Core.{Severity, error, warning, Fetched, parsed}
use personal_ai_brain.Quality.{QualityFinding, QualityReport, add_finding}

-- Findings and reports have the fields that state_quality.py gives them.
abbrev pub IntegrityFinding : Type 0
IntegrityFinding = QualityFinding

abbrev pub IntegrityReport : Type 0
IntegrityReport = QualityReport

pub record LoadedState : Type 0 where
  pub path : String
  pub attention : String
  pub status : String
  pub sync_status : String
  pub last_verified : String
  pub raw : Fields

-- A loop over a number or a truth value.
pub data IntegrityError : Type 0 where
  not_iterable : IntegrityError

-- The injected reader at the checker's ref with the YAML parser behind it, Python's `str` and
-- `repr`, and `date.fromisoformat`, which gives the ordinal of a date.
pub record IntegrityChecker : Type 0 where
  pub get_text : String → String → Fetched
  pub show : Value → String
  pub repr : String → String
  pub fromisoformat : String → Option ℕ
  pub central_repository : String
  pub project_map_path : String

abbrev pub non_blocking_attention : List String
non_blocking_attention = "deferred" ∷ "parked" ∷ "none" ∷ "future" ∷ "background" ∷ []

abbrev pub future_statuses : List String
future_statuses = "future_unassigned" ∷ "future_project_not_initialized" ∷ "not_active" ∷ []

abbrev pub terminal_root_statuses : List String
terminal_root_statuses = "completed" ∷ "paused" ∷ "inactive" ∷ "archived" ∷ []

-- `_is_non_blocking`
abbrev pub is_non_blocking : LoadedState → Bool
is_non_blocking state =
    member state.attention non_blocking_attention || member state.status future_statuses

-- The characters of a text, as texts.
abbrev pub characters : String → Values
characters String.[] = nothing
characters (String.◌∷◌ c s) = item (text (String.◌∷◌ c String.[])) (characters s)

abbrev pub keys : Fields → Values
keys end = nothing
keys (field k v fs) = item (text k) (keys fs)

-- What a loop over `value or []` goes through.
abbrev pub items_of : Option Value → Result IntegrityError Values
items_of (some (sequence vs)) = ok vs
items_of (some (text t)) = ok (characters t)
items_of (some (mapping fs)) = ok (keys fs)
items_of v = if is_falsy v then ok nothing else err not_iterable

-- `value or {}`, and the empty mapping for a value of another type.
abbrev pub mapping_or_empty : Option Value → Fields
mapping_or_empty (some (mapping fs)) = fs
mapping_or_empty v = end

abbrev pub as_mapping : Fetched → Option Fields
as_mapping (parsed (mapping fs)) = some fs
as_mapping f = none

module _ (checker : IntegrityChecker) where
  -- `str(value)`
  abbrev pub str : Value → String
  str v = str_of checker.show v

  -- `_parse_date`
  unfoldable pub parse_date : String → Option ℕ
  parse_date value = if str_eq value "" then none else checker.fromisoformat value

  -- `_load_yaml`: `none` is the exception, whichever it is.
  abbrev pub load_yaml : String → String → Option Fields
  load_yaml repository path = as_mapping (checker.get_text repository path)

  abbrev pub loaded_state : Option Fields → String → String → Option LoadedState
  loaded_state none path attention = none
  loaded_state (some raw) path attention = some (record {
    path = path;
    attention = attention;
    status = str (get_or "status" (text "unknown") raw);
    sync_status = str (get_or "status" (text "unknown") (mapping_or_empty (get "sync" raw)));
    last_verified =
        str (get_or "last_verified" (text "") (mapping_or_empty (get "verification" raw)));
    raw = raw;
  })

  -- `_read_state`
  abbrev pub read_state : String → String → String → Option LoadedState
  read_state repository path attention = loaded_state (load_yaml repository path) path attention
