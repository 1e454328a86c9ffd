-- ===== src/Quality/Schema.antt =====
-- `_check_schema` of src/personal_ai_brain/state_quality.py, a block of the method each.
use personal_ai_brain.Prelude.{
  String, Bool, false, not, ◌||◌, Option, none, some, is_some, List, [], ◌∷◌, member, str_eq,
  is_blank, concat, Result, ok, err, if◌then◌else◌,
}
use personal_ai_brain.Prelude.Values.{
  Value, null, boolean, text, sequence, mapping, Fields, get, or_null, equals_text, is_hashable,
  ◌>>=◌,
}
use personal_ai_brain.Quality.{
  QualityReport, Checker, QualityError, unhashable, supported_state_schema, required_top_level,
  string_top_level, list_top_level, allowed_sync_statuses, add_error, add_warning, type_error, str,
}

-- `", ".join(keys)`
abbrev pub comma_join : List String → String
comma_join [] = ""
comma_join (k ∷ []) = k
comma_join (k ∷ l ∷ ks) = concat k (concat ", " (comma_join (l ∷ ks)))

abbrev pub missing_keys : List String → Fields → List String
missing_keys [] raw = []
missing_keys (k ∷ ks) raw =
    let rest = missing_keys ks raw in if is_some (get k raw) then rest else k ∷ rest

abbrev pub report_missing : List String → String → QualityReport → QualityReport
report_missing [] subject report = report
report_missing missing subject report =
    add_error "state_required_field_missing" subject
      (concat "Missing required top-level field(s): " (comma_join missing)) report

-- A text that is not blank.
abbrev pub is_non_empty_string : Option Value → Bool
is_non_empty_string (some (text t)) = not (is_blank t)
is_non_empty_string v = false

-- `_require_non_empty_string`
unfoldable pub require_non_empty_string :
    Fields → String → String → String → QualityReport → QualityReport
require_non_empty_string fs key display_key subject report =
    if is_non_empty_string (get key fs)
    then report
    else add_error "state_nested_field_invalid" subject
        (concat display_key " must be a non-empty string.") report

-- `expected_scope in {"project_rollup", "workstream"}`
abbrev pub is_fixed_scope : String → Bool
is_fixed_scope expected_scope =
    str_eq expected_scope "project_rollup" || str_eq expected_scope "workstream"

module _ (checker : Checker) where
  abbrev pub check_string : Option Value → String → String → QualityReport → QualityReport
  check_string none key subject report = report
  check_string (some (text t)) key subject report = report
  check_string (some v) key subject report = type_error checker subject key "string" v report

  unfoldable pub check_strings : List String → Fields → String → QualityReport → QualityReport
  check_strings [] raw subject report = report
  check_strings (k ∷ ks) raw subject report =
      check_strings ks raw subject (check_string (get k raw) k subject report)

  abbrev pub check_list : Option Value → String → String → QualityReport → QualityReport
  check_list none key subject report = report
  check_list (some (sequence vs)) key subject report = report
  check_list (some v) key subject report = type_error checker subject key "list" v report

  unfoldable pub check_lists : List String → Fields → String → QualityReport → QualityReport
  check_lists [] raw subject report = report
  check_lists (k ∷ ks) raw subject report =
      check_lists ks raw subject (check_list (get k raw) k subject report)

  unfoldable pub check_project_block :
      Option Value → String → String → QualityReport → QualityReport
  check_project_block (some (mapping project)) expected_scope subject report =
      let named = require_non_empty_string project "name" "project.name" subject report in
      let owned = require_non_empty_string project "owner" "project.owner" subject named in
      if str_eq expected_scope "workstream"
      then require_non_empty_string project "workstream" "project.workstream" subject owned
      else owned
  check_project_block (some v) expected_scope subject report =
      type_error checker subject "project" "mapping" v report
  check_project_block none expected_scope subject report = report

  -- The two fields of `portfolio`.
  abbrev pub check_milestone : Option Value → String → QualityReport → QualityReport
  check_milestone none subject report =
      add_error "state_nested_field_missing" subject "Missing portfolio.milestone." report
  check_milestone (some (boolean b)) subject report = report
  check_milestone (some v) subject report =
      type_error checker subject "portfolio.milestone" "boolean" v report

  abbrev pub check_signal : Option Value → String → QualityReport → QualityReport
  check_signal none subject report =
      add_error "state_nested_field_missing" subject "Missing portfolio.signal." report
  check_signal (some (text t)) subject report = report
  check_signal (some v) subject report =
      type_error checker subject "portfolio.signal" "string" v report

  unfoldable pub check_portfolio : Option Value → String → QualityReport → QualityReport
  check_portfolio (some (mapping portfolio)) subject report =
      check_signal (get "signal" portfolio) subject
        (check_milestone (get "milestone" portfolio) subject report)
  check_portfolio (some v) subject report =
      type_error checker subject "portfolio" "mapping" v report
  check_portfolio none subject report = report

  abbrev pub check_sources : Option Value → String → QualityReport → QualityReport
  check_sources none subject report =
      add_error "state_nested_field_missing" subject "Missing verification.sources." report
  check_sources (some (sequence vs)) subject report = report
  check_sources (some v) subject report =
      type_error checker subject "verification.sources" "list" v report

  abbrev pub check_version : Value → String → QualityReport → QualityReport
  check_version schema_version subject report =
      if str_eq (str checker schema_version) supported_state_schema
      then report
      else add_error "state_schema_version_unsupported" subject
          (concat "Expected schema_version '0.2', got " (concat (checker.repr schema_version) "."))
          report

  abbrev pub is_date : String → Bool
  is_date t = is_some (checker.fromisoformat t)

  abbrev pub check_last_verified : Option Value → String → QualityReport → QualityReport
  check_last_verified none subject report =
      add_error "state_nested_field_missing" subject "Missing verification.last_verified." report
  check_last_verified (some (text t)) subject report =
      if str_eq t "" || is_date t
      then report
      else add_error "verification_date_invalid" subject
          (concat "verification.last_verified is not ISO date YYYY-MM-DD: "
            (concat (checker.repr (text t)) "."))
          report
  check_last_verified (some v) subject report =
      type_error checker subject "verification.last_verified" "string" v report

  unfoldable pub check_verification : Option Value → String → QualityReport → QualityReport
  check_verification (some (mapping verification)) subject report =
      check_sources (get "sources" verification) subject
        (check_last_verified (get "last_verified" verification) subject report)
  check_verification (some v) subject report =
      type_error checker subject "verification" "mapping" v report
  check_verification none subject report = report

  abbrev pub check_sync_status : Option Value → String → QualityReport → QualityReport
  check_sync_status none subject report =
      add_error "state_nested_field_missing" subject "Missing sync.status." report
  check_sync_status (some (text t)) subject report =
      if member t allowed_sync_statuses
      then report
      else add_warning "sync_status_unknown" subject
          (concat "Unrecognized sync.status " (concat (checker.repr (text t)) ".")) report
  check_sync_status (some v) subject report =
      type_error checker subject "sync.status" "string" v report

  abbrev pub check_storage : Option Value → String → String → QualityReport → QualityReport
  check_storage none expected_path subject report =
      add_error "state_nested_field_missing" subject "Missing sync.storage." report
  check_storage (some (text t)) expected_path subject report =
      if str_eq t expected_path
      then report
      else add_error "sync_storage_mismatch" subject
          (concat "sync.storage is " (
            concat (checker.repr (text t)) (
              concat ", but Project Map resolved this state from "
                (concat (checker.repr (text expected_path)) "."))))
          report
  check_storage (some v) expected_path subject report =
      type_error checker subject "sync.storage" "string" v report

  unfoldable pub check_sync : Option Value → String → String → QualityReport → QualityReport
  check_sync (some (mapping sync)) expected_path subject report =
      check_storage (get "storage" sync) expected_path subject
        (check_sync_status (get "status" sync) subject report)
  check_sync (some v) expected_path subject report =
      type_error checker subject "sync" "mapping" v report
  check_sync none expected_path subject report = report

  -- `state_scope in {"project", "project_state"}`, with None let through before.
  abbrev pub check_free_scope : Value → String → QualityReport → Result QualityError QualityReport
  check_free_scope null subject report = ok report
  check_free_scope v subject report =
      if is_hashable v
      then ok (
          if equals_text v "project" || equals_text v "project_state"
          then report
          else add_warning "state_scope_unexpected" subject
              (concat "Single-project state has unexpected state_scope "
                (concat (checker.repr v) "."))
              report)
      else err unhashable

  unfoldable pub check_scope :
      Value → String → String → QualityReport → Result QualityError QualityReport
  check_scope state_scope expected_scope subject report =
      if is_fixed_scope expected_scope
      then ok (
          if equals_text state_scope expected_scope
          then report
          else add_error "state_scope_mismatch" subject
              (concat "Expected state_scope " (
                concat (checker.repr (text expected_scope))
                  (concat ", got " (concat (checker.repr state_scope) "."))))
              report)
      else check_free_scope state_scope subject report

  unfoldable pub check_top_level : Fields → String → String → QualityReport → QualityReport
  check_top_level raw subject expected_scope report =
      let versioned = check_version (or_null (get "schema_version" raw)) subject report in
      let complete = report_missing (missing_keys required_top_level raw) subject versioned in
      let worded = check_strings string_top_level raw subject complete in
      let listed = check_lists list_top_level raw subject worded in
      check_project_block (get "project" raw) expected_scope subject listed

  unfoldable pub check_nested : Fields → String → String → QualityReport → QualityReport
  check_nested raw expected_path subject report =
      let signalled = check_portfolio (get "portfolio" raw) subject report in
      let verified = check_verification (get "verification" raw) subject signalled in
      check_sync (get "sync" raw) expected_path subject verified

  -- `_check_schema`
  unfoldable pub check_schema :
      Fields → String → String → String → QualityReport → Result QualityError QualityReport
  check_schema raw expected_path subject expected_scope report = do
    scoped ←
        check_scope (or_null (get "state_scope" raw)) expected_scope subject
          (check_top_level raw subject expected_scope report)
    ok (check_nested raw expected_path subject scoped)
