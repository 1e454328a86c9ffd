-- ===== src/Core.antt =====
-- `CoreAgent` of src/personal_ai_brain/core_agent.py: what it collects of the project map and the
-- states that the map names. The snapshot that the methods append to is passed along.
mod Kept
pub mod Reports
pub mod Returns
pub mod Checks
mod Tests
use personal_ai_brain.Prelude.{
  String, Bool, true, false, not, ◌&&◌, ◌||◌, Option, none, some, List, [], ◌∷◌, ◌++◌, member,
  str_eq, concat, fold_from, Result, ok, err, if◌then◌else◌,
}
use personal_ai_brain.Prelude.Values.{
  Value, null, boolean, integer, scalar, text, sequence, mapping, Values, nothing, item, Fields,
  end, field, get, get_or, is_falsy, ◌>>=◌,
}

pub data Severity : Type 0 where
  error warning : Severity

pub record Finding : Type 0 where
  pub severity : Severity
  pub code : String
  pub subject : String
  pub message : String

pub record StateRecord : Type 0 where
  pub project_id : String
  pub project_name : String
  pub scope : String
  pub repository : String
  pub path : String
  pub attention : String
  pub status : String
  pub phase : String
  pub last_verified : String
  pub sync_status : String
  pub current_gate : String
  pub exact_next_action : String

pub record CoreSnapshot : Type 0 where
  pub generated_on : String
  pub records : List StateRecord
  pub findings : List Finding

-- The call of a mapping's method on another value.
pub data CoreError : Type 0 where
  attribute_error : CoreError

-- What the reader and the YAML parser give for a file.
pub data Fetched : Type 0 where
  unreadable : String → Fetched
  bad_yaml : String → Fetched
  parsed : Value → Fetched

-- The injected reader at the agent's ref, with its repository and path; Python's `str` and `repr`
-- of values that are no texts, truths or nulls; today's date; and where the map is.
pub record Agent : Type 0 where
  pub get_text : String → String → Fetched
  pub show : Value → String
  pub repr : String → String
  pub today : String
  pub central_repository : String
  pub project_map_path : String

abbrev pub non_blocking_attention : List String
non_blocking_attention = "deferred" ∷ "parked" ∷ "none" ∷ "future" ∷ "background" ∷ []

abbrev pub stale_statuses : List String
stale_statuses = "stale_needs_refresh" ∷ "needs_initialization" ∷ []

abbrev pub non_current_map_statuses : List String
non_current_map_statuses =
    "future_project_not_initialized" ∷ "future_unassigned" ∷ "deferred_manual" ∷ "synced_but_old"
    ∷ []

abbrev pub add_finding : Severity → String → String → String → CoreSnapshot → CoreSnapshot
add_finding severity code subject message snapshot = record snapshot {
  findings =
      snapshot.findings
      ++ record { severity = severity; code = code; subject = subject; message = message } ∷ [];
}

abbrev pub add_record : StateRecord → CoreSnapshot → CoreSnapshot
add_record r snapshot = record snapshot { records = snapshot.records ++ r ∷ [] }

-- The names that `_read_state` is given.
pub record StateRequest : Type 0 where
  pub project_id : String
  pub project_name : String
  pub scope : String
  pub repository : String
  pub path : String
  pub attention : String

module _ (agent : Agent) where
  -- `str(value)`
  abbrev pub str : Value → String
  str null = "None"
  str (boolean true) = "True"
  str (boolean false) = "False"
  str (text t) = t
  str (scalar t) = t
  str v = agent.show v

  -- `_fold_text`
  abbrev pub fold_text : Option Value → String
  fold_text none = ""
  fold_text (some null) = ""
  fold_text (some v) = fold_from false false (str v)

  -- `_load_yaml` behind the read, with the message of its exception.
  abbrev pub as_mapping : String → Fetched → Result String Fields
  as_mapping subject (unreadable message) = err message
  as_mapping subject (bad_yaml message) =
      err (concat "Invalid YAML for " (concat subject (concat ": " message)))
  as_mapping subject (parsed (mapping fs)) = ok fs
  as_mapping subject (parsed v) = err (concat "Expected YAML mapping for " subject)

  unfoldable pub load_yaml : String → String → String → Result String Fields
  load_yaml repository path subject = as_mapping subject (agent.get_text repository path)

  -- `value or {}`, on which the caller then calls `get`.
  unfoldable pub sub_mapping : Option Value → Result CoreError Fields
  sub_mapping (some (mapping fs)) = ok fs
  sub_mapping v = if is_falsy v then ok end else err attribute_error

  unfoldable pub state_record : StateRequest → Fields → Fields → Fields → StateRecord
  state_record q state verification sync = record {
    project_id = q.project_id;
    project_name = q.project_name;
    scope = q.scope;
    repository = q.repository;
    path = q.path;
    attention = q.attention;
    status = str (get_or "status" (text "unknown") state);
    phase = str (get_or "phase" (text "") state);
    last_verified = str (get_or "last_verified" (text "") verification);
    sync_status = str (get_or "status" (text "unknown") sync);
    current_gate = fold_text (get "current_gate" state);
    exact_next_action = fold_text (get "exact_next_action" state);
  }

  -- `_read_state` for what `_load_yaml` gave.
  unfoldable pub read_loaded :
      StateRequest
      → Result String Fields
      → CoreSnapshot
      → Result CoreError (Option StateRecord × CoreSnapshot)
  read_loaded q (err message) snapshot =
      ok (none, add_finding error "state_unreadable" q.project_name message snapshot)
  read_loaded q (ok state) snapshot = do
    verification ← sub_mapping (get "verification" state)
    sync ← sub_mapping (get "sync" state)
    ok (some (state_record q state verification sync), snapshot)

  unfoldable pub read_state :
      StateRequest → CoreSnapshot → Result CoreError (Option StateRecord × CoreSnapshot)
  read_state q snapshot = read_loaded q (load_yaml q.repository q.path q.project_name) snapshot

  abbrev pub warn_if : Bool → String → String → String → CoreSnapshot → CoreSnapshot
  warn_if true code subject message snapshot = add_finding warning code subject message snapshot
  warn_if false code subject message snapshot = snapshot

  abbrev pub is_non_blocking : StateRecord → Bool
  is_non_blocking r = member r.attention non_blocking_attention

  -- `_validate_record`
  unfoldable pub validate_record : StateRecord → String → CoreSnapshot → CoreSnapshot
  validate_record r map_status snapshot =
      let blocking = not (is_non_blocking r) in
      let synced =
        warn_if (not (str_eq r.sync_status "synced") && blocking) "state_not_synced" r.project_name
          (concat "sync.status is " (agent.repr r.sync_status)) snapshot in
      let fresh =
        warn_if (member r.status stale_statuses && blocking) "state_needs_refresh" r.project_name
          (concat "state status is " (agent.repr r.status)) synced in
      let current =
        warn_if
          (member map_status non_current_map_statuses
            && (blocking && not (str_eq r.status "future_unassigned")))
          "map_marks_state_non_current" r.project_name
          (concat "project map state_status is " (agent.repr map_status)) fresh in
      warn_if (str_eq r.last_verified "" && blocking) "verification_date_missing" r.project_name
        "verification.last_verified is empty" current

  -- What both collectors do with what `_read_state` returned.
  unfoldable pub keep_record : String → Option StateRecord × CoreSnapshot → CoreSnapshot
  keep_record map_status (none, snapshot) = snapshot
  keep_record map_status (some r, snapshot) = validate_record r map_status (add_record r snapshot)

  unfoldable pub read_and_keep :
      StateRequest → String → CoreSnapshot → Result CoreError CoreSnapshot
  read_and_keep q map_status snapshot = do
    read ← read_state q snapshot
    ok (keep_record map_status read)

  -- `_collect_workstream`
  unfoldable pub collect_workstream :
      String → String → String → String → Value → CoreSnapshot → Result CoreError CoreSnapshot
  collect_workstream project_id project_name repository parent_attention (mapping fs) snapshot =
      let workstream_id = str (get_or "id" (text "unknown") fs) in
      if is_falsy (get "state_path" fs)
      then ok (
          add_finding error "workstream_state_path_missing"
            (concat project_name (concat "/" workstream_id)) "Workstream has no state_path"
            snapshot)
      else read_and_keep
          (record {
            project_id = project_id;
            project_name = concat project_name (concat " / " workstream_id);
            scope = "workstream";
            repository = repository;
            path = str (get_or "state_path" null fs);
            attention = str (get_or "core_attention" (text parent_attention) fs);
          })
          (str (get_or "state_status" (text "unknown") fs)) snapshot
  collect_workstream project_id project_name repository parent_attention v snapshot =
      err attribute_error

  unfoldable pub collect_workstreams :
      String → String → String → String → Values → CoreSnapshot → Result CoreError CoreSnapshot
  collect_workstreams project_id project_name repository attention nothing snapshot = ok snapshot
  collect_workstreams project_id project_name repository attention (item v vs) snapshot = do
    snapshot' ← collect_workstream project_id project_name repository attention v snapshot
    collect_workstreams project_id project_name repository attention vs snapshot'

  -- The workstreams of a project, unless they are no list.
  abbrev pub workstreams_of : Fields → Values
  workstreams_of fs = elim (get "workstreams" fs) [ some (sequence vs) ↦ vs | _ ↦ nothing ]

  abbrev pub name_of : Fields → String
  name_of fs = str (get_or "name" (text (str (get_or "id" (text "unknown") fs))) fs)

  -- `storage == "project_repo"`
  abbrev pub in_project_repo : Option Value → Bool
  in_project_repo (some (text t)) = str_eq t "project_repo"
  in_project_repo v = false

  abbrev pub repository_of : Fields → String
  repository_of fs =
      if in_project_repo (get "storage" fs)
      then str (get_or "repository" null fs)
      else agent.central_repository

  abbrev pub project_request : Fields → StateRequest
  project_request fs = record {
    project_id = str (get_or "id" (text "unknown") fs);
    project_name = name_of fs;
    scope = "project";
    repository = repository_of fs;
    path = str (get_or "state_path" null fs);
    attention = str (get_or "core_attention" (text "unspecified") fs);
  }

  -- `_collect_project`
  unfoldable pub collect_project : Value → CoreSnapshot → Result CoreError CoreSnapshot
  collect_project (mapping fs) snapshot =
      let q = project_request fs in
      if is_falsy (get "state_path" fs)
      then ok (
          add_finding error "state_path_missing" q.project_name
            "Project map entry has no state_path" snapshot)
      else if str_eq q.repository "" || str_eq q.repository "None"
      then ok (
          add_finding error "repository_missing" q.project_name "Project repository is not defined"
            snapshot)
      else do
        root ← read_and_keep q (str (get_or "state_status" (text "unknown") fs)) snapshot
        collect_workstreams q.project_id q.project_name q.repository q.attention (workstreams_of fs)
            root
  collect_project v snapshot = err attribute_error

  unfoldable pub collect_projects : Values → CoreSnapshot → Result CoreError CoreSnapshot
  collect_projects nothing snapshot = ok snapshot
  collect_projects (item v vs) snapshot = do
    snapshot' ← collect_project v snapshot
    collect_projects vs snapshot'

  abbrev pub new_snapshot : CoreSnapshot
  new_snapshot = record { generated_on = agent.today; records = []; findings = [] }

  -- `collect` for what the project map has under `projects`.
  unfoldable pub collect_list : Option Value → Result CoreError CoreSnapshot
  collect_list (some (sequence projects)) = collect_projects projects new_snapshot
  collect_list v = ok (
      add_finding error "project_map_invalid" "Core project map" "'projects' must be a list"
        new_snapshot)

  -- `collect` for what `_load_yaml` gave.
  unfoldable pub collect_loaded : Result String Fields → Result CoreError CoreSnapshot
  collect_loaded (err message) =
      ok (add_finding error "project_map_unreadable" "Core project map" message new_snapshot)
  collect_loaded (ok project_map) = collect_list (get "projects" project_map)

  unfoldable pub collect : Result CoreError CoreSnapshot
  collect =
      collect_loaded (load_yaml agent.central_repository agent.project_map_path "Core project map")
