-- ===== src/Rollup/Tests.antt =====
-- A root state with one workstream that blocks and one that is deferred by hand.
use personal_ai_brain.Prelude.{
  ℕ, String, ◌≡◌, refl, true, false, not, Option, none, some, List, [], ◌∷◌, All, member, str_eq,
  concat, keep, ok, if◌then◌else◌,
}
use personal_ai_brain.Prelude.Values.{
  Value, boolean, text, sequence, mapping, Values, nothing, item, Fields, end, field, get,
}
use personal_ai_brain.Prelude.Equality.{same}
use personal_ai_brain.Core.{Fetched, parsed, warning}
use personal_ai_brain.Quality.{add_finding}
use personal_ai_brain.Integrity.{IntegrityReport, LoadedState, IntegrityChecker}
use personal_ai_brain.Integrity.Sets.{sorted_difference}
use personal_ai_brain.Integrity.Checks.{warn_paths, check_rollup_shape, check_generated_sources}
use personal_ai_brain.Integrity.Projects.{paths_of, new_report}
use personal_ai_brain.Integrity
use personal_ai_brain.Rollup.{WorkstreamState, Engine, is_non_blocking, set_if, parse_date, differs}
use personal_ai_brain.Rollup.Steps.{
  desired_workstreams, propose_structure, propose_freshness, propose_fields, propose_narrative,
}
use personal_ai_brain.Rollup.Projects.{Target, children_of, propose_read, propose_project, propose}
use personal_ai_brain.Rollup.Applied.{IsApplied}
use personal_ai_brain.Rollup.Again.{EqualsItself, propose_read-again}
use personal_ai_brain.Rollup.Agrees.{propose_read-shape}

abbrev plain : Value → String
plain v = ""

abbrev dates : String → Option ℕ
dates t = if str_eq t "2026-07-03" then some 739800 else none

abbrev workstreams : Values
workstreams =
    item (mapping (field "id" (text "a") (field "state_path" (text "a.yaml") end)))
      (item (mapping (field "id" (text "b") (field "state_path" (text "b.yaml") end))) nothing)

abbrev project : Fields
project =
    field "name" (text "Brain")
      (field "state_path" (text "root.yaml") (field "workstreams" (sequence workstreams) end))

abbrev files : String → String → Fetched
files repository path =
    if str_eq path "map.yaml"
    then parsed (mapping (field "projects" (sequence (item (mapping project) nothing)) end))
    else if str_eq path "a.yaml"
    then parsed (
        mapping (
          field "status" (text "active")
            (field "verification" (mapping (field "last_verified" (text "2026-07-03") end)) end)))
    else if str_eq path "b.yaml"
    then parsed (mapping (field "status" (text "deferred_manual") end))
    else parsed (mapping (field "status" (text "paused") end))

abbrev engine : Engine
engine = record {
  get_text = files;
  show = plain;
  fromisoformat = dates;
  central_repository = "central";
  project_map_path = "map.yaml";
}

abbrev checker : IntegrityChecker
checker = record {
  get_text = files;
  show = plain;
  repr = λ (t : String). t;
  fromisoformat = dates;
  central_repository = "central";
  project_map_path = "map.yaml";
}

abbrev target : Target
target = record {
  project_id = "unknown";
  project_name = "Brain";
  repository = "central";
  root_path = "root.yaml";
}

abbrev children : List WorkstreamState
children = children_of engine project "central" workstreams

abbrev root : Fields
root = field "status" (text "paused") end

-- The root with the changes of the first proposal.
abbrev root_after : Fields
root_after = field "status" (text "active") (
    field "state_scope" (text "project_rollup") (
      field "workstreams" (sequence (desired_workstreams engine workstreams)) (
        field "rollup_policy"
          (mapping (
            field "specialist_writes_root" (boolean false) (
              field "generated_from" (sequence (item (text "a.yaml") nothing))
                (field "future_workstreams_do_not_block_rollup" (boolean true) end))))
          (field "verification" (mapping (field "last_verified" (text "2026-07-03") end)) end))))

applied : IsApplied (propose_read engine target root workstreams children).changes root root_after
unfolding propose_read propose_structure propose_freshness propose_fields propose_narrative set_if
    same parse_date member
applied = record {
  at_top = (refl, (refl, (refl, (refl, (refl, (refl, tt))))));
  at_policy = (refl, (refl, (refl, tt)));
  at_verification = refl;
}

equal : All (EqualsItself engine) (keep (λ (c : WorkstreamState). not (is_non_blocking c)) children)
unfolding same member
equal = ((refl, (refl, (refl, (refl, tt)))), tt)

propose_read-again_example :
    (propose_read engine target root_after workstreams children).changes ≡ end
propose_read-again_example =
    propose_read-again engine target root root_after workstreams children equal applied

abbrev state_after : LoadedState
state_after = record {
  path = "root.yaml";
  attention = "unspecified";
  status = "active";
  sync_status = "unknown";
  last_verified = "2026-07-03";
  raw = root_after;
}

not_listed :
    differs engine (get "workstreams" root) (sequence (desired_workstreams engine workstreams))
    ≡ true
unfolding same
not_listed = refl

propose_read-shape_example :
    check_rollup_shape checker "Brain" state_after (paths_of checker workstreams) new_report
    ≡ ok new_report
propose_read-shape_example =
    propose_read-shape engine checker target root state_after workstreams children "Brain"
      new_report refl refl not_listed applied

-- A state that is deferred by hand blocks for the integrity checker and not for the engine, so
-- that the checker warns of the sources that the engine proposes.
abbrev deferred : LoadedState
deferred = record {
  path = "b.yaml";
  attention = "unspecified";
  status = "deferred_manual";
  sync_status = "unknown";
  last_verified = "";
  raw = end;
}

deferred_blocks : Integrity.is_non_blocking deferred ≡ false
unfolding member
deferred_blocks = refl

source_missing :
    check_generated_sources checker "Brain" state_after
      (deferred ∷ [])
      (paths_of checker workstreams)
      new_report
    ≡ ok (
        add_finding warning "rollup_missing_active_source" "Brain"
          (concat "Active workstream state is not listed in rollup_policy.generated_from: "
            "b.yaml")
          new_report)
unfolding check_generated_sources sorted_difference warn_paths member
source_missing = refl

one_proposal : propose engine ≡ some (propose_read engine target root workstreams children ∷ [])
unfolding propose propose_project propose_read propose_structure propose_freshness propose_fields
    propose_narrative set_if same parse_date member
one_proposal = refl
