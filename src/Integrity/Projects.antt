-- ===== src/Integrity/Projects.antt =====
-- `check` and `_check_project` of src/personal_ai_brain/state_integrity.py.
use personal_ai_brain.Prelude.{
  String, not, ◌||◌, Option, none, some, List, [], ◌∷◌, keep, str_eq, Result, ok, if◌then◌else◌,
}
use personal_ai_brain.Prelude.Values.{
  Value, text, sequence, mapping, Values, nothing, item, Fields, get, get_or, or_null, is_falsy,
  equals_text, ◌>>=◌,
}
use personal_ai_brain.Integrity.{
  IntegrityReport, LoadedState, IntegrityError, IntegrityChecker, is_non_blocking, str, load_yaml,
  read_state,
}
use personal_ai_brain.Integrity.Checks.{
  check_rollup_shape, check_generated_sources, check_freshness, check_sync, check_status,
}

abbrev pub new_report : IntegrityReport
new_report = record { findings = [] }

abbrev pub add_child : Option LoadedState → List LoadedState → List LoadedState
add_child none children = children
add_child (some child) children = child ∷ children

module _ (checker : IntegrityChecker) where
  -- The checks once the states are read, if any workstream was.
  unfoldable pub check_rollup :
      String
      → LoadedState
      → List LoadedState
      → List String
      → IntegrityReport
      → Result IntegrityError IntegrityReport
  check_rollup project_name root children map_paths report =
      let active_children = keep (λ (c : LoadedState). not (is_non_blocking c)) children in
      do
        shaped ← check_rollup_shape checker project_name root map_paths report
        sourced ← check_generated_sources checker project_name root active_children map_paths shaped
        ok (
            check_status checker project_name root active_children (
              check_sync checker project_name root active_children
                (check_freshness checker project_name root active_children sourced)))

  abbrev pub project_attention : Fields → Value
  project_attention project = get_or "core_attention" (text "unspecified") project

  -- `map_paths` and `children`, in the order of the workstreams.
  abbrev pub paths_of : Values → List String
  paths_of nothing = []
  paths_of (item (mapping fs) vs) =
      let rest = paths_of vs in
      if is_falsy (get "state_path" fs)
      then rest
      else str checker (or_null (get "state_path" fs)) ∷ rest
  paths_of (item v vs) = paths_of vs

  abbrev pub children_of : Fields → String → Values → List LoadedState
  children_of project repository nothing = []
  children_of project repository (item (mapping fs) vs) =
      let rest = children_of project repository vs in
      if is_falsy (get "state_path" fs)
      then rest
      else add_child
          (read_state checker repository (str checker (or_null (get "state_path" fs)))
            (str checker (get_or "core_attention" (project_attention project) fs)))
          rest
  children_of project repository (item v vs) = children_of project repository vs

  abbrev pub project_name : Fields → String
  project_name project = str checker (get_or "name" (get_or "id" (text "unknown") project) project)

  abbrev pub repository_of : Fields → String
  repository_of project =
      if equals_text (or_null (get "storage" project)) "project_repo"
      then str checker (or_null (get "repository" project))
      else checker.central_repository

  abbrev pub check_children :
      List LoadedState
      → Fields
      → LoadedState
      → List String
      → IntegrityReport
      → Result IntegrityError IntegrityReport
  check_children [] project root map_paths report = ok report
  check_children (c ∷ cs) project root map_paths report =
      check_rollup (project_name project) root (c ∷ cs) map_paths report

  abbrev pub check_root :
      Option LoadedState → Fields → Values → IntegrityReport → Result IntegrityError IntegrityReport
  check_root none project workstreams report = ok report
  check_root (some root) project workstreams report =
      check_children (children_of project (repository_of project) workstreams) project root
        (paths_of workstreams) report

  -- `_check_project`
  unfoldable pub check_project :
      Fields → Values → IntegrityReport → Result IntegrityError IntegrityReport
  check_project project workstreams report =
      if is_falsy (get "state_path" project)
        || str_eq (repository_of project) ""
        || str_eq (repository_of project) "None"
      then ok report
      else check_root
          (read_state checker (repository_of project)
            (str checker (or_null (get "state_path" project)))
            (str checker (project_attention project)))
          project workstreams report

  abbrev pub check_workstreams :
      Option Value → Fields → IntegrityReport → Result IntegrityError IntegrityReport
  check_workstreams (some (sequence (item v vs))) project report =
      check_project project (item v vs) report
  check_workstreams v project report = ok report

  abbrev pub check_entry : Value → IntegrityReport → Result IntegrityError IntegrityReport
  check_entry (mapping project) report =
      check_workstreams (get "workstreams" project) project report
  check_entry v report = ok report

  unfoldable pub check_entries : Values → IntegrityReport → Result IntegrityError IntegrityReport
  check_entries nothing report = ok report
  check_entries (item v vs) report = do next ← check_entry v report; check_entries vs next

  abbrev pub check_list : Option Value → Result IntegrityError IntegrityReport
  check_list (some (sequence projects)) = check_entries projects new_report
  check_list v = ok new_report

  abbrev pub check_map : Option Fields → Result IntegrityError IntegrityReport
  check_map none = ok new_report
  check_map (some project_map) = check_list (get "projects" project_map)

  -- `check`
  unfoldable pub check : Result IntegrityError IntegrityReport
  check = check_map (load_yaml checker checker.central_repository checker.project_map_path)
