-- ===== src/Integrity/Tests.antt =====
-- A rollup with two workstreams.
use personal_ai_brain.Prelude.{
  ℕ, ◌<◌, pos, String, ◌≡◌, refl, ◌⊎◌, Option, none, some, List, [], ◌∷◌, member, text_leb, str_eq,
  concat, ok, err, if◌then◌else◌,
}
use personal_ai_brain.Prelude.Values.{
  Value, integer, text, sequence, mapping, nothing, item, Fields, end, field, values_of,
}
use personal_ai_brain.Core.{Fetched, parsed, warning}
use personal_ai_brain.Quality.{add_finding}
use personal_ai_brain.Quality.Judges.{Judges}
use personal_ai_brain.Integrity.{
  IntegrityReport, LoadedState, not_iterable, IntegrityChecker, parse_date,
}
use personal_ai_brain.Integrity.Sets.{sorted_difference}
use personal_ai_brain.Integrity.Checks.{check_rollup_shape, check_freshness}
use personal_ai_brain.Integrity.Projects.{
  new_report, check_rollup, check_project, check_entries, check,
}
use personal_ai_brain.Integrity.Newest.{IsIn, AllUpTo, IsNewest, check_freshness-IsNewest}
use personal_ai_brain.Integrity.Consistent.{is_consistent, check_rollup-is_consistent}

abbrev dates : String → Option ℕ
dates t =
    if str_eq t "2026-07-01"
    then some 739798
    else if str_eq t "2026-07-03"
    then some 739800
    else if str_eq t "2026-07-05"
    then some 739802
    else none

-- A rollup whose list of workstreams is the given value.
abbrev rollup : Value → Fields
rollup workstreams = field "state_scope" (text "project_rollup") (
    field "workstreams" workstreams (
      field "rollup_policy"
        (mapping (field "generated_from" (sequence (values_of ("b.yaml" ∷ "a.yaml" ∷ []))) end))
        end))

abbrev declared : Value
declared = sequence (
    item (mapping (field "path" (text "a.yaml") end))
      (item (mapping (field "path" (text "b.yaml") end)) nothing))

abbrev workstream : String → Value
workstream path = mapping (field "state_path" (text path) end)

abbrev project_map : Fields
project_map =
    field "projects"
      (sequence (
        item
          (mapping (
            field "name" (text "Brain") (
              field "state_path" (text "root.yaml") (
                field "workstreams"
                  (sequence (item (workstream "a.yaml") (item (workstream "b.yaml") nothing)))
                  end))))
          nothing))
      end

abbrev files : Value → String → String → Fetched
files workstreams repository path =
    if str_eq path "map.yaml"
    then parsed (mapping project_map)
    else if str_eq path "root.yaml"
    then parsed (mapping (rollup workstreams))
    else parsed (mapping end)

abbrev checker_of : Value → IntegrityChecker
checker_of workstreams = record {
  get_text = files workstreams;
  show = λ (v : Value). "";
  repr = λ (t : String). t;
  fromisoformat = dates;
  central_repository = "central";
  project_map_path = "map.yaml";
}

abbrev state : String → String → LoadedState
state path last_verified = record {
  path = path;
  attention = "active";
  status = "active";
  sync_status = "synced";
  last_verified = last_verified;
  raw = end;
}

abbrev root : LoadedState
root = record {
  path = "root.yaml";
  attention = "active";
  status = "active";
  sync_status = "synced";
  last_verified = "2026-07-01";
  raw = rollup declared;
}

abbrev children : List LoadedState
children = state "a.yaml" "2026-07-03" ∷ state "b.yaml" "2026-07-05" ∷ []

abbrev map_paths : List String
map_paths = "a.yaml" ∷ "b.yaml" ∷ []

sorted : sorted_difference ("c" ∷ "a" ∷ "b" ∷ "a" ∷ []) ("b" ∷ []) ≡ "a" ∷ "c" ∷ []
unfolding sorted_difference member text_leb
sorted = refl

root_dated : parse_date (checker_of declared) "2026-07-01" ≡ some 739798
unfolding parse_date
root_dated = refl

check_freshness-IsNewest_example :
    ((check_freshness (checker_of declared) "Brain" root children new_report ≡ new_report)
      × AllUpTo (checker_of declared) 739798 children)
    ⊎ ((x : LoadedState) × (latest : ℕ) × (check_freshness
            (checker_of declared)
            "Brain"
            root
            children
            new_report
          ≡ add_finding warning "rollup_outdated" "Brain"
              (concat "Root rollup was verified " (
                concat "2026-07-01" (
                  concat ", but workstream " (
                    concat x.path
                      (concat " was verified later on " (concat x.last_verified "."))))))
              new_report)
        × IsIn x children
        × IsNewest (checker_of declared) x latest 739798 children
        × (739798 < latest))
check_freshness-IsNewest_example =
    check_freshness-IsNewest (checker_of declared) "Brain" root children new_report 739798
      root_dated

newest_named :
    check_freshness (checker_of declared) "Brain" root children new_report
    ≡ add_finding warning "rollup_outdated" "Brain"
        (concat "Root rollup was verified 2026-07-01, but workstream b.yaml "
          "was verified later on 2026-07-05.")
        new_report
unfolding check_freshness parse_date
newest_named = refl

check_rollup-is_consistent_example :
    (t : IntegrityReport) × (check_rollup
        (checker_of declared)
        "Brain"
        root
        children
        map_paths
        new_report
      ≡ ok t)
    × Judges
        (is_consistent
          (checker_of declared)
          root
          children
          map_paths
          ("a.yaml" ∷ "b.yaml" ∷ [])
          ("b.yaml" ∷ "a.yaml" ∷ []))
        new_report
        t
check_rollup-is_consistent_example =
    check_rollup-is_consistent (checker_of declared) "Brain" root children map_paths
      ("a.yaml" ∷ "b.yaml" ∷ []) ("b.yaml" ∷ "a.yaml" ∷ []) new_report refl refl

-- A rollup that has a number in place of its list of workstreams ends the check of all projects.
number_of_workstreams : check (checker_of (integer (pos 3))) ≡ err not_iterable
unfolding check check_entries check_project check_rollup check_rollup_shape member
number_of_workstreams = refl
