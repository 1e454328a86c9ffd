-- ===== src/Quality/Contract.antt =====
-- The contract of a state that `_check_schema` of src/personal_ai_brain/state_quality.py checks.
use personal_ai_brain.Prelude.{
  String, Bool, true, false, not, ◌&&◌, ◌||◌, Option, none, some, is_some, [], ◌∷◌, all, member,
  str_eq, is_blank, if◌then◌else◌,
}
use personal_ai_brain.Prelude.Values.{
  Value, null, boolean, text, sequence, mapping, Fields, get, or_null,
}
use personal_ai_brain.Quality.{Checker, allowed_sync_statuses, str}
use personal_ai_brain.Quality.Schema.{is_fixed_scope}

abbrev pub is_string : Option Value → Bool
is_string (some (text t)) = true
is_string v = false

abbrev pub is_list : Option Value → Bool
is_list (some (sequence vs)) = true
is_list v = false

abbrev pub is_boolean : Option Value → Bool
is_boolean (some (boolean b)) = true
is_boolean v = false

-- The value is a mapping whose fields pass a test.
abbrev pub is_mapping_with : (Fields → Bool) → Option Value → Bool
is_mapping_with p (some (mapping fs)) = p fs
is_mapping_with p v = false

abbrev pub is_text_with : (String → Bool) → Option Value → Bool
is_text_with p (some (text t)) = p t
is_text_with p v = false

abbrev pub owned_project : String → Fields → Bool
owned_project scope fs =
    is_text_with (λ t. not (is_blank t)) (get "name" fs)
    && is_text_with (λ t. not (is_blank t)) (get "owner" fs)
    && (not (str_eq scope "workstream")
        || is_text_with (λ t. not (is_blank t)) (get "workstream" fs))

abbrev pub signalled : Fields → Bool
signalled fs = is_boolean (get "milestone" fs) && is_string (get "signal" fs)

abbrev pub stored_at : String → Fields → Bool
stored_at path fs =
    is_text_with (λ t. member t allowed_sync_statuses) (get "status" fs)
    && is_text_with (λ t. str_eq t path) (get "storage" fs)

-- The scope that the project map asks for; a single project may leave it out.
abbrev pub has_scope : String → Option Value → Bool
has_scope scope none = not (is_fixed_scope scope)
has_scope scope (some null) = not (is_fixed_scope scope)
has_scope scope (some (text t)) =
    if is_fixed_scope scope then str_eq t scope else str_eq t "project" || str_eq t "project_state"
has_scope scope (some v) = false

module _ (checker : Checker) where
  abbrev pub verified : Fields → Bool
  verified fs =
      is_text_with (λ t. str_eq t "" || is_some (checker.fromisoformat t)) (get "last_verified" fs)
      && is_list (get "sources" fs)

  -- The contract of a state: the version, five texts, three lists and four mappings, each of which
  -- with its own fields, and the scope.
  abbrev pub is_valid : Fields → String → String → Bool
  is_valid raw path scope =
      str_eq (str checker (or_null (get "schema_version" raw))) "0.2"
      && all (λ k. is_string (get k raw))
          ("status" ∷ "phase" ∷ "current_gate" ∷ "current_state" ∷ "exact_next_action" ∷ [])
      && all (λ k. is_list (get k raw)) ("blockers" ∷ "dependencies" ∷ "important_open_loops" ∷ [])
      && is_mapping_with (owned_project scope) (get "project" raw)
      && is_mapping_with signalled (get "portfolio" raw)
      && is_mapping_with verified (get "verification" raw)
      && is_mapping_with (stored_at path) (get "sync" raw)
      && has_scope scope (get "state_scope" raw)
