-- ===== src/Quality/Returns.antt =====
-- `check` of src/personal_ai_brain/state_quality.py returns unless a state's scope has no hash.
use personal_ai_brain.Prelude.{
  String, ◌≡◌, refl, inl, inr, true, Bool-cases, Option, none, some, Result, ok, err, arith,
}
use personal_ai_brain.Prelude.Values.{
  Value, sequence, mapping, Values, nothing, item, Fields, get, or_null, is_falsy, is_hashable,
  ◌>>=◌,
}
use personal_ai_brain.Quality.{QualityReport, Checker, QualityError}
use personal_ai_brain.Quality.Schema.{
  is_fixed_scope, check_free_scope, check_scope, check_top_level, check_schema,
}
use personal_ai_brain.Quality.Projects.{
  new_report, load_yaml, StateCheck, check_loaded, check_one_state, repository_for, workstream_list,
  root_check, workstream_check, check_workstream, check_workstreams, check_in_repository,
  check_project, check_projects, check_list, check_map, check,
}

abbrev pub Returns : Result QualityError QualityReport → Type 0
Returns m = (report : QualityReport) × (m ≡ ok report)

then-Returns :
    (m : Result QualityError QualityReport) (f : QualityReport → Result QualityError QualityReport)
    → Returns m
    → ((report : QualityReport) → Returns (f report))
    → Returns (m >>= f)
then-Returns (ok a) f h k = k a
then-Returns (err e) f (a, h) k = absurd (ground arith)

-- Every state that can be read has a scope with a hash.
abbrev pub HasScopes : Checker → Type 0
HasScopes checker =
    (repository path : String) (raw : Fields)
    → load_yaml checker repository path ≡ some raw
    → is_hashable (or_null (get "state_scope" raw)) ≡ true

module _ (checker : Checker) (scopes : HasScopes checker) where
  free_scope-Returns :
      (v : Value) (subject : String) (r : QualityReport)
      → is_hashable v ≡ true
      → Returns (check_free_scope checker v subject r)
  free_scope-Returns (sequence vs) subject r h = absurd (ground arith)
  free_scope-Returns (mapping fs) subject r h = absurd (ground arith)
  free_scope-Returns v subject r h = (_, refl)

  scope-Returns :
      (v : Value) (scope subject : String) (r : QualityReport)
      → is_hashable v ≡ true
      → Returns (check_scope checker v scope subject r)
  unfolding check_scope
  scope-Returns v scope subject r h = elim (Bool-cases (is_fixed_scope scope)) [
    | inl e ↦ rw e (_, refl)
    | inr e ↦ rw e (free_scope-Returns v subject r h)
  ]

  schema-Returns :
      (raw : Fields) (path subject scope : String) (r : QualityReport)
      → is_hashable (or_null (get "state_scope" raw)) ≡ true
      → Returns (check_schema checker raw path subject scope r)
  unfolding check_schema
  schema-Returns raw path subject scope r h =
      then-Returns
        (check_scope checker (or_null (get "state_scope" raw)) scope subject
          (check_top_level checker raw subject scope r))
        _ (scope-Returns (or_null (get "state_scope" raw)) scope subject _ h) (λ s. (_, refl))

  loaded-Returns :
      (o : Option Fields) (c : StateCheck) (r : QualityReport)
      → load_yaml checker c.repository c.path ≡ o
      → Returns (check_loaded checker o c r)
  unfolding check_loaded
  loaded-Returns none c r h = (r, refl)
  loaded-Returns (some raw) c r h =
      then-Returns (check_schema checker raw c.path c.subject c.expected_scope r) _
        (schema-Returns raw c.path c.subject c.expected_scope r (scopes c.repository c.path raw h))
        (λ s. (_, refl))

  one_state-Returns : (c : StateCheck) (r : QualityReport) → Returns (check_one_state checker c r)
  one_state-Returns c r = loaded-Returns (load_yaml checker c.repository c.path) c r refl

  workstream-Returns :
      (project : Fields) (repository : String) (v : Value) (r : QualityReport)
      → Returns (check_workstream checker project repository v r)
  workstream-Returns project repository (mapping fs) r =
      elim (Bool-cases (is_falsy (get "state_path" fs))) [
        | inl e ↦ rw e (r, refl)
        | inr e ↦ rw e (one_state-Returns (workstream_check checker project repository fs) r)
      ]
  workstream-Returns project repository v r = (r, refl)

  workstreams-Returns :
      (project : Fields) (repository : String) (vs : Values) (r : QualityReport)
      → Returns (check_workstreams checker project repository vs r)
  unfolding check_workstreams
  workstreams-Returns project repository nothing r = (r, refl)
  workstreams-Returns project repository (item v vs) r =
      then-Returns (check_workstream checker project repository v r) _
        (workstream-Returns project repository v r)
        (λ s. workstreams-Returns project repository vs s)

  in_repository-Returns :
      (o : Option String) (fs : Fields) (r : QualityReport)
      → Returns (check_in_repository checker o fs r)
  in_repository-Returns none fs r = (r, refl)
  in_repository-Returns (some repository) fs r =
      elim (Bool-cases (is_falsy (get "state_path" fs))) [
        | inl e ↦ rw e (r, refl)
        | inr e ↦ rw e (
            then-Returns (check_one_state checker (root_check checker fs repository) r) _
              (one_state-Returns (root_check checker fs repository) r)
              (λ s.
                workstreams-Returns fs repository (workstream_list checker (get "workstreams" fs))
                  s))
      ]

  project-Returns : (v : Value) (r : QualityReport) → Returns (check_project checker v r)
  unfolding check_project
  project-Returns (mapping fs) r = in_repository-Returns (repository_for checker fs) fs r
  project-Returns v r = (r, refl)

  projects-Returns : (vs : Values) (r : QualityReport) → Returns (check_projects checker vs r)
  unfolding check_projects
  projects-Returns nothing r = (r, refl)
  projects-Returns (item v vs) r =
      then-Returns (check_project checker v r) _ (project-Returns v r) (λ s. projects-Returns vs s)

  list-Returns : (o : Option Value) → Returns (check_list checker o)
  list-Returns (some (sequence vs)) = projects-Returns vs (new_report)
  list-Returns o = (_, refl)

  map-Returns : (o : Option Fields) → Returns (check_map checker o)
  map-Returns none = (_, refl)
  map-Returns (some fs) = list-Returns (get "projects" fs)

-- The check returns a report whatever the project map holds and whichever files cannot be read, if
-- no state that can be read has a list or a mapping as its scope.
pub check-Returns : (checker : Checker) → HasScopes checker → Returns (check checker)
unfolding check
check-Returns checker scopes =
    map-Returns checker scopes
      (load_yaml checker checker.central_repository checker.project_map_path)
