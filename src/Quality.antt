-- ===== src/Quality.antt =====
-- `ProjectStateQualityChecker` and `FreshnessPolicy` of src/personal_ai_brain/state_quality.py: what
-- they keep, and how a finding is added. The report that the methods append to is passed along.
pub mod Policy
pub mod Schema
pub mod Freshness
pub mod Projects
pub mod Judges
pub mod Contract
pub mod Blocks
pub mod Valid
pub mod Stale
pub mod Refreshed
pub mod Returns
mod Tests
use personal_ai_brain.Prelude.{
  ℕ, ℤ, String, Bool, true, false, Option, none, some, List, [], ◌∷◌, ◌++◌, member, str_eq, concat,
  if◌then◌else◌,
}
use personal_ai_brain.Prelude.Values.{
  Value, null, boolean, integer, scalar, text, sequence, mapping, str_of,
}
use personal_ai_brain.Core.{Severity, error, warning, Fetched}

pub record QualityFinding : Type 0 where
  pub severity : Severity
  pub code : String
  pub subject : String
  pub message : String

pub record QualityReport : Type 0 where
  pub findings : List QualityFinding

-- `attention_days` in the order of insertion; a limit of `none` is Python's None.
pub record FreshnessPolicy : Type 0 where
  pub default_days : Option ℤ
  pub attention_days : List (String × Option ℤ)
  pub disabled_attention : List String

-- `attention_days[attention]`, where `none` is a missing key.
abbrev pub days_of : String → List (String × Option ℤ) → Option (Option ℤ)
days_of attention [] = none
days_of attention ((k, days) ∷ rest) =
    if str_eq k attention then some days else days_of attention rest

abbrev pub or_default : Option ℤ → Option (Option ℤ) → Option ℤ
or_default default_days none = default_days
or_default default_days (some days) = days

abbrev pub max_age_days : FreshnessPolicy → String → Option ℤ
max_age_days policy attention =
    if member attention policy.disabled_attention
    then none
    else or_default policy.default_days (days_of attention policy.attention_days)

-- The injected reader at the checker's ref with the YAML parser behind it; Python's `str` and
-- `repr`, and the class of a scalar by its text; `date.fromisoformat`, which gives the ordinal of a date, and `isoformat`; and the rest
-- of what the constructor keeps.
pub record Checker : Type 0 where
  pub get_text : String → String → Fetched
  pub show : Value → String
  pub repr : Value → String
  pub scalar_type : String → String
  pub fromisoformat : String → Option ℕ
  pub isoformat : ℕ → String
  pub policy : FreshnessPolicy
  pub central_repository : String
  pub project_map_path : String
  pub today : ℕ

-- A list or a mapping looked up in a set.
pub data QualityError : Type 0 where
  unhashable : QualityError

abbrev pub supported_state_schema : String
supported_state_schema = "0.2"

abbrev pub required_top_level : List String
required_top_level =
    "project" ∷ "status" ∷ "phase" ∷ "current_gate" ∷ "current_state" ∷ "exact_next_action"
    ∷ "blockers" ∷ "dependencies" ∷ "important_open_loops" ∷ "portfolio" ∷ "verification" ∷ "sync"
    ∷ []

abbrev pub string_top_level : List String
string_top_level = "status" ∷ "phase" ∷ "current_gate" ∷ "current_state" ∷ "exact_next_action" ∷ []

abbrev pub list_top_level : List String
list_top_level = "blockers" ∷ "dependencies" ∷ "important_open_loops" ∷ []

abbrev pub allowed_sync_statuses : List String
allowed_sync_statuses = "synced" ∷ "pending" ∷ "failed" ∷ []

abbrev pub non_fresh_statuses : List String
non_fresh_statuses =
    "future_unassigned" ∷ "future_project_not_initialized" ∷ "not_active" ∷ "deferred_manual" ∷ []

abbrev pub add_finding : Severity → String → String → String → QualityReport → QualityReport
add_finding severity code subject message report = record {
  findings =
      report.findings
      ++ record { severity = severity; code = code; subject = subject; message = message } ∷ [];
}

-- `_error`
abbrev pub add_error : String → String → String → QualityReport → QualityReport
add_error code subject message report = add_finding error code subject message report

-- `_warning`
abbrev pub add_warning : String → String → String → QualityReport → QualityReport
add_warning code subject message report = add_finding warning code subject message report

module _ (checker : Checker) where
  -- `str(value)`
  abbrev pub str : Value → String
  str v = str_of checker.show v

  -- `type(value).__name__`
  abbrev pub type_name : Value → String
  type_name null = "NoneType"
  type_name (boolean b) = "bool"
  type_name (integer i) = "int"
  type_name (scalar t) = checker.scalar_type t
  type_name (text t) = "str"
  type_name (sequence vs) = "list"
  type_name (mapping fs) = "dict"

  -- `_type_error`
  abbrev pub type_error : String → String → String → Value → QualityReport → QualityReport
  type_error subject key expected value report =
      add_finding error "state_field_type_invalid" subject
        (concat key
          (concat " must be " (concat expected (concat "; got " (concat (type_name value) ".")))))
        report
