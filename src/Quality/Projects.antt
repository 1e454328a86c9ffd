-- ===== src/Quality/Projects.antt =====
-- `check`, `_check_project` and `_check_one_state` of src/personal_ai_brain/state_quality.py.
use personal_ai_brain.Prelude.{
  String, Bool, true, false, Option, none, some, [], concat, str_eq, Result, ok, if◌then◌else◌,
}
use personal_ai_brain.Prelude.Values.{
  Value, text, sequence, mapping, Values, nothing, item, Fields, get, get_or, or_null, is_falsy,
  equals_text, ◌>>=◌,
}
use personal_ai_brain.Core.{Fetched, parsed}
use personal_ai_brain.Quality.{QualityReport, Checker, QualityError, str}
use personal_ai_brain.Quality.Schema.{check_schema}
use personal_ai_brain.Quality.Freshness.{check_freshness}

abbrev pub new_report : QualityReport
new_report = record { findings = [] }

-- `_load_yaml` behind the read: `none` is the exception, whichever it is.
abbrev pub as_mapping : Fetched → Option Fields
as_mapping (parsed (mapping fs)) = some fs
as_mapping f = none

-- What `_check_one_state` is given beside the report.
pub record StateCheck : Type 0 where
  pub repository : String
  pub path : String
  pub subject : String
  pub expected_scope : String
  pub attention : String
  pub map_entry : Fields

module _ (checker : Checker) where
  abbrev pub load_yaml : String → String → Option Fields
  load_yaml repository path = as_mapping (checker.get_text repository path)

  unfoldable pub check_loaded :
      Option Fields → StateCheck → QualityReport → Result QualityError QualityReport
  check_loaded none c report = ok report
  check_loaded (some raw) c report = do
    checked ← check_schema checker raw c.path c.subject c.expected_scope report
    ok (check_freshness checker raw c.subject c.attention c.map_entry checked)

  -- `_check_one_state`
  abbrev pub check_one_state : StateCheck → QualityReport → Result QualityError QualityReport
  check_one_state c report = check_loaded (load_yaml c.repository c.path) c report

  -- `_repository_for`, where a falsy result is `none`.
  abbrev pub repository_for : Fields → Option String
  repository_for project =
      if equals_text (or_null (get "storage" project)) "project_repo"
      then (if is_falsy (get "repository" project)
          then none
          else some (str checker (or_null (get "repository" project))))
      else (if str_eq checker.central_repository "" then none else some checker.central_repository)

  abbrev pub has_workstreams : Option Value → Bool
  has_workstreams (some (sequence (item v vs))) = true
  has_workstreams v = false

  abbrev pub workstream_list : Option Value → Values
  workstream_list (some (sequence vs)) = vs
  workstream_list v = nothing

  abbrev pub project_id : Fields → String
  project_id fs = str checker (get_or "id" (text "unknown") fs)

  abbrev pub project_name : Fields → String
  project_name fs = str checker (get_or "name" (text (project_id fs)) fs)

  abbrev pub root_attention : Fields → String
  root_attention fs = str checker (get_or "core_attention" (text "unspecified") fs)

  abbrev pub root_check : Fields → String → StateCheck
  root_check fs repository = record {
    repository = repository;
    path = str checker (or_null (get "state_path" fs));
    subject = project_name fs;
    expected_scope = if has_workstreams (get "workstreams" fs) then "project_rollup" else "project";
    attention = root_attention fs;
    map_entry = fs;
  }

  abbrev pub workstream_check : Fields → String → Fields → StateCheck
  workstream_check project repository fs = record {
    repository = repository;
    path = str checker (or_null (get "state_path" fs));
    subject = concat (project_name project) (concat " / " (project_id fs));
    expected_scope = "workstream";
    attention = str checker (get_or "core_attention" (text (root_attention project)) fs);
    map_entry = fs;
  }

  abbrev pub check_workstream :
      Fields → String → Value → QualityReport → Result QualityError QualityReport
  check_workstream project repository (mapping fs) report =
      if is_falsy (get "state_path" fs)
      then ok report
      else check_one_state (workstream_check project repository fs) report
  check_workstream project repository v report = ok report

  unfoldable pub check_workstreams :
      Fields → String → Values → QualityReport → Result QualityError QualityReport
  check_workstreams project repository nothing report = ok report
  check_workstreams project repository (item v vs) report = do
    next ← check_workstream project repository v report
    check_workstreams project repository vs next

  abbrev pub check_in_repository :
      Option String → Fields → QualityReport → Result QualityError QualityReport
  check_in_repository none fs report = ok report
  check_in_repository (some repository) fs report =
      if is_falsy (get "state_path" fs) then ok report else do
        root ← check_one_state (root_check fs repository) report
        check_workstreams fs repository (workstream_list (get "workstreams" fs)) root

  -- `_check_project`, which `check` calls for mappings only.
  unfoldable pub check_project : Value → QualityReport → Result QualityError QualityReport
  check_project (mapping fs) report = check_in_repository (repository_for fs) fs report
  check_project v report = ok report

  unfoldable pub check_projects : Values → QualityReport → Result QualityError QualityReport
  check_projects nothing report = ok report
  check_projects (item v vs) report = do next ← check_project v report; check_projects vs next

  abbrev pub check_list : Option Value → Result QualityError QualityReport
  check_list (some (sequence projects)) = check_projects projects new_report
  check_list v = ok new_report

  abbrev pub check_map : Option Fields → Result QualityError QualityReport
  check_map none = ok new_report
  check_map (some project_map) = check_list (get "projects" project_map)

  -- `check`
  unfoldable pub check : Result QualityError QualityReport
  check = check_map (load_yaml checker.central_repository checker.project_map_path)
