-- ===== src/Quality/Policy.antt =====
-- How `FreshnessPolicy` of src/personal_ai_brain/state_quality.py is read from a configuration.
use personal_ai_brain.Prelude.{
  ℤ, pos, String, Bool, not, Option, none, some, List, [], ◌∷◌, all, str_eq, concat, Result, ok,
  err, if◌then◌else◌,
}
use personal_ai_brain.Prelude.Values.{
  Value, null, integer, text, sequence, mapping, Fields, end, field, get, get_or, texts, values_of,
  str_of, ◌>>=◌, require,
}
use personal_ai_brain.Quality.{FreshnessPolicy}

-- `FreshnessPolicy.default`
abbrev pub default : FreshnessPolicy
default = record {
  default_days = some (pos 14);
  attention_days =
      ("urgent_time_bound", some (pos 2))
      ∷ ("active", some (pos 7))
      ∷ ("active_secondary", some (pos 14))
      ∷ ("needs_refresh", some (pos 0))
      ∷ ("background", some (pos 30))
      ∷ [];
  disabled_attention =
      "deferred" ∷ "deferred_until_feasibility" ∷ "parked" ∷ "none" ∷ "future" ∷ [];
}

-- A number of days that is None, or a non-negative integer and no truth value.
abbrev pub days_in : Value → String → Result String (Option ℤ)
days_in null message = ok none
days_in (integer (pos n)) message = ok (some (pos n))
days_in v message = err message

-- `attention_days[key] = days`
abbrev pub set_days : String → Option ℤ → List (String × Option ℤ) → List (String × Option ℤ)
set_days key days [] = (key, days) ∷ []
set_days key days ((k, old) ∷ rest) =
    let later = set_days key days rest in
    if str_eq k key then (k, days) ∷ rest else (k, old) ∷ later

-- `raw.get("attention_days", {})`
abbrev pub attention_raw : Value → Result String Fields
attention_raw (mapping fs) = ok fs
attention_raw v = err "freshness attention_days must be a mapping"

abbrev non_empty : List String → Bool
non_empty ts = all (λ (t : String). not (str_eq t "")) ts

-- The list of `disabled_attention`, if its items are texts.
abbrev disabled_texts : Option (List String) → Result String (List String)
disabled_texts none = err "freshness disabled_attention must be a list of strings"
disabled_texts (some ts) =
    if non_empty ts then ok ts else err "freshness disabled_attention must be a list of strings"

abbrev pub disabled_raw : Value → Result String (List String)
disabled_raw (sequence vs) = disabled_texts (texts vs)
disabled_raw v = err "freshness disabled_attention must be a list of strings"

abbrev pub default_days_raw : Option Value → Result String (Option ℤ)
default_days_raw none = ok default.default_days
default_days_raw (some v) =
    days_in v "freshness default_days must be a non-negative integer or null"

module _ (show repr : Value → String) where
  -- The loop over the items of `attention_days`.
  unfoldable pub read_attention :
      Fields → List (String × Option ℤ) → Result String (List (String × Option ℤ))
  read_attention end days = ok days
  read_attention (field key value rest) days = do
    limit ← days_in value (
        concat "freshness threshold for "
          (concat (repr (text key)) " must be a non-negative integer or null"))
    read_attention rest (set_days key limit days)

  unfoldable pub from_mapping : Fields → Result String FreshnessPolicy
  from_mapping raw = do
    default_days ← default_days_raw (get "default_days" raw)
    given ← attention_raw (get_or "attention_days" (mapping end) raw)
    attention_days ← read_attention given default.attention_days
    disabled ←
        disabled_raw
          (get_or "disabled_attention" (sequence (values_of default.disabled_attention)) raw)
    ok (record {
      default_days = default_days;
      attention_days = attention_days;
      disabled_attention = disabled;
    })

  abbrev policy_mapping : Value → Result String Fields
  policy_mapping null = ok end
  policy_mapping (mapping fs) = ok fs
  policy_mapping v = err "freshness policy YAML must contain a mapping"

  -- `from_yaml_text` for what `yaml.safe_load` returned.
  unfoldable pub from_yaml : Value → Result String FreshnessPolicy
  from_yaml parsed = do
    raw ← policy_mapping parsed
    _ ← require (str_eq (str_of show (get_or "schema_version" (text "0.1") raw)) "0.1") (
        concat "unsupported freshness policy schema_version "
          (repr (get_or "schema_version" (text "0.1") raw)))
    from_mapping raw
