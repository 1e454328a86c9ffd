-- ===== src/Rollup/Projects.antt =====
-- `propose` and `_propose_project` of src/personal_ai_brain/rollup_proposal.py.
use personal_ai_brain.Prelude.{
  String, Bool, true, false, not, ◌||◌, Option, none, some, List, [], ◌∷◌, keep, str_eq,
  if◌then◌else◌,
}
use personal_ai_brain.Prelude.Values.{
  Value, text, sequence, mapping, Values, nothing, item, Fields, end, field, get, get_or, or_null,
  is_falsy, equals_text,
}
use personal_ai_brain.Rollup.{
  WorkstreamState, RollupProposal, Engine, is_non_blocking, mapping_or_empty, str, load_yaml,
}
use personal_ai_brain.Rollup.Steps.{
  paths_of, propose_structure, propose_freshness, propose_narrative,
}

-- What a project is proposed for, before its states are read.
pub record Target : Type 0 where
  pub project_id : String
  pub project_name : String
  pub repository : String
  pub root_path : String

abbrev pub add_child : Option WorkstreamState → List WorkstreamState → List WorkstreamState
add_child none children = children
add_child (some child) children = child ∷ children

abbrev pub add_proposal : Option RollupProposal → List RollupProposal → List RollupProposal
add_proposal none proposals = proposals
add_proposal (some proposal) proposals = proposal ∷ proposals

abbrev pub new_proposal : Target → List String → RollupProposal
new_proposal t basis_paths = record {
  project_id = t.project_id;
  project_name = t.project_name;
  repository = t.repository;
  root_path = t.root_path;
  basis_paths = basis_paths;
  changes = end;
  manual_synthesis_required = false;
  notes = [];
}

-- `proposal.changes or proposal.notes`
abbrev pub says_something : RollupProposal → Bool
says_something proposal = elim proposal.changes [
  | field _ _ _ ↦ true
  | end ↦ elim proposal.notes [ [] ↦ false | _ ∷ _ ↦ true ]
]

abbrev pub kept_proposal : Option RollupProposal → Option RollupProposal
kept_proposal none = none
kept_proposal (some proposal) = if says_something proposal then some proposal else none

module _ (engine : Engine) where
  abbrev pub child_state : Option Fields → String → Fields → Fields → Option WorkstreamState
  child_state none path project fs = none
  child_state (some raw) path project fs = some (record {
    id = str engine (get_or "id" (text "unknown") fs);
    path = path;
    owner = str engine (get_or "owner" (text "unassigned") fs);
    attention =
        str engine
          (get_or "core_attention" (get_or "core_attention" (text "unspecified") project) fs);
    status = str engine (get_or "status" (get_or "state_status" (text "unknown") fs) raw);
    last_verified =
        str engine (get_or "last_verified" (text "") (mapping_or_empty (get "verification" raw)));
    raw = raw;
  })

  -- The loop that reads the children.
  abbrev pub children_of : Fields → String → Values → List WorkstreamState
  children_of project repository nothing = []
  children_of project repository (item (mapping fs) vs) =
      let rest = children_of project repository vs in
      let path = str engine (or_null (get "state_path" fs)) in
      if is_falsy (get "state_path" fs)
      then rest
      else add_child (child_state (load_yaml engine repository path) path project fs) rest
  children_of project repository (item v vs) = children_of project repository vs

  -- The proposal once the root and the children are read.
  unfoldable pub propose_read : Target → Fields → Values → List WorkstreamState → RollupProposal
  propose_read t root workstreams children =
      let active = keep (λ (c : WorkstreamState). not (is_non_blocking c)) children in
      let proposal = new_proposal t (paths_of active) in
      propose_narrative engine root active (record proposal {
        changes =
            propose_freshness engine root active
              (propose_structure engine root workstreams active children proposal.changes);
      })

  abbrev pub propose_children :
      Target → Fields → Values → List WorkstreamState → Option RollupProposal
  propose_children t root workstreams [] = none
  propose_children t root workstreams (c ∷ cs) = some (propose_read t root workstreams (c ∷ cs))

  abbrev pub propose_root : Option Fields → Target → Fields → Values → Option RollupProposal
  propose_root none t project workstreams = none
  propose_root (some root) t project workstreams =
      propose_children t root workstreams (children_of project t.repository workstreams)

  abbrev pub target_of : Fields → Target
  target_of project =
      let project_id = str engine (get_or "id" (text "unknown") project) in
      record {
        project_id = project_id;
        project_name = str engine (get_or "name" (text project_id) project);
        repository =
            if equals_text (or_null (get "storage" project)) "project_repo"
            then str engine (or_null (get "repository" project))
            else engine.central_repository;
        root_path = str engine (or_null (get "state_path" project));
      }

  -- `_propose_project`
  unfoldable pub propose_project : Fields → Values → Option RollupProposal
  propose_project project workstreams =
      let t = target_of project in
      if is_falsy (get "state_path" project) || str_eq t.repository "" || str_eq t.repository "None"
      then none
      else propose_root (load_yaml engine t.repository t.root_path) t project workstreams

  abbrev pub propose_workstreams : Option Value → Fields → Option RollupProposal
  propose_workstreams (some (sequence (item v vs))) project = propose_project project (item v vs)
  propose_workstreams v project = none

  -- The loop over the projects of the map.
  abbrev pub propose_all : Values → List RollupProposal
  propose_all nothing = []
  propose_all (item (mapping project) vs) =
      add_proposal (kept_proposal (propose_workstreams (get "workstreams" project) project))
        (propose_all vs)
  propose_all (item v vs) = propose_all vs

  abbrev pub propose_list : Option Value → List RollupProposal
  propose_list (some (sequence projects)) = propose_all projects
  propose_list v = []

  abbrev pub propose_map : Option Fields → Option (List RollupProposal)
  propose_map none = none
  propose_map (some project_map) = some (propose_list (get "projects" project_map))

  -- `propose`, which raises if the project map cannot be read.
  unfoldable pub propose : Option (List RollupProposal)
  propose = propose_map (load_yaml engine engine.central_repository engine.project_map_path)
