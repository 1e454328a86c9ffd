-- ===== src/Quality/Tests.antt =====
-- A project map with one project whose state was verified today.
use personal_ai_brain.Prelude.{
  ℕ, ◌+◌, ◌<◌, pos, leb, String, ◌≡◌, refl, true, false, ◌&&◌, Option, none, some, str_eq, member,
  subst, inl, inr, Bool-cases, is_blank, ok, err, if◌then◌else◌,
}
use personal_ai_brain.Prelude.Values.{
  Value, boolean, integer, text, sequence, mapping, nothing, item, Fields, end, field, get, or_null,
  is_hashable, texts,
}
use personal_ai_brain.Core.{Fetched, parsed}
use personal_ai_brain.Quality.{QualityReport, Checker, unhashable}
use personal_ai_brain.Quality.Policy.{default, from_mapping, read_attention}
use personal_ai_brain.Quality.Schema.{check_scope, check_schema}
use personal_ai_brain.Quality.Freshness.{threshold_for, check_freshness}
use personal_ai_brain.Quality.Projects.{
  new_report, check_loaded, check_project, check_projects, check,
}
use personal_ai_brain.Quality.Judges.{size, Judges}
use personal_ai_brain.Quality.Contract.{is_valid}
use personal_ai_brain.Quality.Valid.{check_schema-is_valid}
use personal_ai_brain.Quality.Stale.{IsVerified, is_judged, check_freshness-Judges}
use personal_ai_brain.Quality.Refreshed.{IsQuiet, check_freshness-IsQuiet}
use personal_ai_brain.Quality.Returns.{Returns, HasScopes, check-Returns}

abbrev verification : Fields
verification = field "last_verified" (text "2026-07-01") (field "sources" (sequence nothing) end)

-- A state that meets the contract, up to its scope.
abbrev state : Fields
state = field "schema_version" (text "0.2") (
    field "status" (text "active") (
      field "phase" (text "build") (
        field "current_gate" (text "none") (
          field "current_state" (text "running") (
            field "exact_next_action" (text "test") (
              field "blockers" (sequence nothing) (
                field "dependencies" (sequence nothing) (
                  field "important_open_loops" (sequence nothing) (
                    field "project"
                      (mapping (field "name" (text "Brain") (field "owner" (text "me") end)))
                      (field "portfolio"
                        (mapping (field "milestone" (boolean false) (field "signal" (text "") end)))
                        (field "verification" (mapping verification) (
                          field "sync"
                            (mapping (
                              field "status" (text "synced")
                                (field "storage" (text "brain.yaml") end)))
                            end))))))))))))

abbrev project : Fields
project = field "name" (text "Brain") (field "state_path" (text "brain.yaml") end)

abbrev files : Fields → String → String → Fetched
files raw repository path =
    if str_eq path "map.yaml"
    then parsed (mapping (field "projects" (sequence (item (mapping project) nothing)) end))
    else parsed (mapping raw)

abbrev dates : String → Option ℕ
dates t = if str_eq t "2026-07-01" then some 739798 else none

abbrev plain : Value → String
plain v = ""

-- A checker on day `today` with one state behind the map.
abbrev checker_of : Fields → ℕ → Checker
checker_of raw today = record {
  get_text = files raw;
  show = plain;
  repr = plain;
  scalar_type = λ (t : String). "float";
  fromisoformat = dates;
  isoformat = λ (n : ℕ). "";
  policy = default;
  central_repository = "central";
  project_map_path = "map.yaml";
  today = today;
}

abbrev broken : Fields
broken = field "phase" (integer (pos 3)) state

meets_contract : is_valid (checker_of state 739798) state "brain.yaml" "project" ≡ true
unfolding member is_blank
meets_contract = refl

check_schema-is_valid_example :
    (is_valid (checker_of state 739798) state "brain.yaml" "project" ≡ true
      → check_schema (checker_of state 739798) state "brain.yaml" "Brain" "project" new_report
        ≡ ok new_report)
    × ((t : QualityReport)
        → is_valid (checker_of state 739798) state "brain.yaml" "project" ≡ false
        → check_schema (checker_of state 739798) state "brain.yaml" "Brain" "project" new_report
          ≡ ok t
        → size new_report < size t)
check_schema-is_valid_example =
    check_schema-is_valid (checker_of state 739798) state "brain.yaml" "Brain" "project" new_report

-- The phase is a number: the first of the two fields is read.
breaks_contract : is_valid (checker_of broken 739798) broken "brain.yaml" "project" ≡ false
unfolding member is_blank
breaks_contract = refl

today_date : IsVerified (checker_of state 739798) state 739798
today_date = record {
  verification = verification;
  raw_date = "2026-07-01";
  has_verification = refl;
  has_date = refl;
  is_given = refl;
  is_day = refl;
}

earlier_date : IsVerified (checker_of state 739808) state 739798
earlier_date = record {
  verification = verification;
  raw_date = "2026-07-01";
  has_verification = refl;
  has_date = refl;
  is_given = refl;
  is_day = refl;
}

judged_before : is_judged (checker_of state 739808) state ≡ true
unfolding member
judged_before = refl

active_limit :
    threshold_for (checker_of state 739808) "active" project "Brain" new_report
    ≡ (some (pos 7), new_report)
unfolding member
active_limit = refl

-- Ten days after the verification the limit of seven days is passed.
check_freshness-Judges_example :
    Judges
      (leb 739798 739808 && leb 739808 (739798 + 7))
      new_report
      (check_freshness (checker_of state 739808) state "Brain" "active" project new_report)
check_freshness-Judges_example =
    check_freshness-Judges (checker_of state 739808) state project "Brain" "active" new_report
      new_report 739798 7 judged_before earlier_date active_limit

default_read : from_mapping plain plain end ≡ ok default
unfolding from_mapping read_attention texts
default_read = refl

check_freshness-IsQuiet_example :
    IsQuiet "Brain" new_report
      (check_freshness (checker_of state 739798) state "Brain" "needs_refresh" project new_report)
check_freshness-IsQuiet_example =
    check_freshness-IsQuiet (checker_of state 739798) plain plain end state project "Brain"
      "needs_refresh" new_report default_read today_date

abbrev project_map : Fields
project_map = field "projects" (sequence (item (mapping project) nothing)) end

has_scopes : HasScopes (checker_of state 739798)
has_scopes repository path raw h = elim (Bool-cases (str_eq path "map.yaml")) [
  | inl e ↦
      (let read : some project_map ≡ some raw = rw e at h in
        let same : project_map ≡ raw = cc in
        subst (λ v. is_hashable (or_null (get "state_scope" v)) ≡ true) same refl)
  | inr e ↦
      (let read : some state ≡ some raw = rw e at h in
        let same : state ≡ raw = cc in
        subst (λ v. is_hashable (or_null (get "state_scope" v)) ≡ true) same refl)
]

check-Returns_example : Returns (check (checker_of state 739798))
check-Returns_example = check-Returns (checker_of state 739798) has_scopes

unhashable_scope :
    check (checker_of (field "state_scope" (sequence nothing) state) 739798) ≡ err unhashable
unfolding check check_projects check_project check_loaded check_schema check_scope
unhashable_scope = refl
