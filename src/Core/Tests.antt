-- ===== src/Core/Tests.antt =====
-- A project map with two projects.
use personal_ai_brain.Prelude.{
  subst, Bool-cases, inl, inr, ◌+◌, ◌<◌, String, ◌≡◌, refl, true, false, [], ◌∷◌, str_eq, concat,
  length, ok, err, if◌then◌else◌, fold_from, member, ◌&&◌,
}
use personal_ai_brain.Prelude.Values.{
  Value, text, sequence, mapping, Values, nothing, item, Fields, end, field, get,
}
use personal_ai_brain.Core.{
  Fetched, parsed, error, warning, StateRecord, CoreSnapshot, attribute_error, Agent, load_yaml,
  collect, collect_loaded, collect_list, collect_projects, collect_project, collect_workstreams,
  collect_workstream, read_and_keep, read_state, read_loaded, sub_mapping, state_record,
  keep_record, validate_record, new_snapshot,
}
use personal_ai_brain.Core.Reports.{Reported, all_names, collect-Reported}
use personal_ai_brain.Core.Returns.{
  Returns, HasStates, are_projects, listed, is_mapping_or_falsy, collect-Returns,
}
use personal_ai_brain.Core.Checks.{is_current, validate_record-warns}

abbrev projects : Values
projects =
    item
      (mapping (
        field "id" (text "brain")
          (field "name" (text "Brain") (field "state_path" (text "brain.yaml") end))))
      (item (mapping (field "id" (text "garden") end)) nothing)

abbrev project_map : Fields
project_map = field "projects" (sequence projects) end

abbrev brain_state : Fields
brain_state =
    field "status" (text "active") (field "sync" (mapping (field "status" (text "synced") end)) end)

abbrev files : String → String → Fetched
files repository path =
    if str_eq path "map.yaml" then parsed (mapping project_map) else parsed (mapping brain_state)

abbrev agent : Agent
agent = record {
  get_text = files;
  show = λ (v : Value). "";
  repr = λ (t : String). concat "'" (concat t "'");
  today = "2026-07-01";
  central_repository = "central";
  project_map_path = "map.yaml";
}

map_read : load_yaml agent "central" "map.yaml" "Core project map" ≡ ok project_map
unfolding load_yaml
map_read = refl

abbrev record_of_brain : StateRecord
record_of_brain = record {
  project_id = "brain";
  project_name = "Brain";
  scope = "project";
  repository = "central";
  path = "brain.yaml";
  attention = "unspecified";
  status = "active";
  phase = "";
  last_verified = "";
  sync_status = "synced";
  current_gate = "";
  exact_next_action = "";
}

abbrev snapshot : CoreSnapshot
snapshot = record {
  generated_on = "2026-07-01";
  records = record_of_brain ∷ [];
  findings =
      record {
        severity = warning;
        code = "verification_date_missing";
        subject = "Brain";
        message = "verification.last_verified is empty";
      }
      ∷ record {
        severity = error;
        code = "state_path_missing";
        subject = "garden";
        message = "Project map entry has no state_path";
      }
      ∷ [];
}

snapshot_collected : collect agent ≡ ok snapshot
unfolding collect collect_loaded collect_list collect_projects collect_project collect_workstreams
    collect_workstream read_and_keep read_state read_loaded sub_mapping state_record keep_record
    validate_record load_yaml fold_from member
snapshot_collected = refl

states_listed :
    are_projects agent (listed (load_yaml agent "central" "map.yaml" "Core project map")) ≡ true
unfolding load_yaml
states_listed = refl

files_states : HasStates agent
unfolding load_yaml
files_states repository path subject fs h = elim (Bool-cases (str_eq path "map.yaml")) [
  | inl e ↦
      (let read : ok project_map ≡ ok fs = rw e at h in
        let same : project_map ≡ fs = cc in
        subst
          (λ v.
            (is_mapping_or_falsy (get "verification" v) && is_mapping_or_falsy (get "sync" v))
            ≡ true)
          same refl)
  | inr e ↦
      (let read : ok brain_state ≡ ok fs = rw e at h in
        let same : brain_state ≡ fs = cc in
        subst
          (λ v.
            (is_mapping_or_falsy (get "verification" v) && is_mapping_or_falsy (get "sync" v))
            ≡ true)
          same refl)
]

collect-Returns_example : Returns (collect agent)
collect-Returns_example = collect-Returns agent files_states states_listed

collect-Reported_example : Reported agent snapshot (all_names agent projects)
collect-Reported_example =
    collect-Reported agent project_map projects snapshot map_read refl snapshot_collected

validate_record-warns_example :
    (is_current agent record_of_brain "current" ≡ true
      → length (validate_record agent record_of_brain "current" (new_snapshot agent)).findings ≡ 0)
    × (is_current agent record_of_brain "current" ≡ false
        → 0
          < length (validate_record agent record_of_brain "current" (new_snapshot agent)).findings)
    × (length (validate_record agent record_of_brain "current" (new_snapshot agent)).findings
        < 0 + 5)
validate_record-warns_example =
    validate_record-warns agent record_of_brain "current" (new_snapshot agent)

-- A list of projects with an entry that is no mapping ends the collection.
text_project :
    collect_projects agent (item (text "brain") nothing) (new_snapshot agent) ≡ err attribute_error
unfolding collect_projects collect_project
text_project = refl
