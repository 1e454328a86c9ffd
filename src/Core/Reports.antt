-- ===== src/Core/Reports.antt =====
-- Nothing that the project map of src/personal_ai_brain/core_agent.py names goes unreported.
use personal_ai_brain.Prelude.{
  concat, All, All-append, String, ◌≡◌, subst, inl, inr, true, ◌||◌, Bool-cases, some, List, [],
  ◌∷◌, ◌++◌, str_eq, ok, if◌then◌else◌, arith,
}
use personal_ai_brain.Prelude.Values.{
  Value, text, sequence, mapping, Values, nothing, item, Fields, get, get_or, is_falsy, bind_ok,
}
use personal_ai_brain.Core.{
  error, CoreSnapshot, Agent, add_finding, load_yaml, read_and_keep, collect_workstream,
  collect_workstreams, workstreams_of, name_of, repository_of, project_request, collect_project,
  collect_projects, new_snapshot, collect_list, collect_loaded, collect, str,
}
use personal_ai_brain.Core.Kept.{is_reported, add_finding_keeps, error_reported, read_and_keep_ok}

module _ (agent : Agent) where
  -- The name that a workstream is reported under.
  abbrev pub workstream_name : String → Value → String
  workstream_name project_name (mapping fs) = concat project_name (
      concat (if is_falsy (get "state_path" fs) then "/" else " / ")
        (str agent (get_or "id" (text "unknown") fs)))
  workstream_name project_name v = project_name

  abbrev pub workstream_names : String → Values → List String
  workstream_names project_name nothing = []
  workstream_names project_name (item v vs) =
      workstream_name project_name v ∷ workstream_names project_name vs

  -- A project's name, and its workstreams' names if its state has a path and a repository.
  abbrev pub project_names : Value → List String
  project_names (mapping fs) =
      name_of agent fs
      ∷ (if is_falsy (get "state_path" fs)
            || (str_eq (repository_of agent fs) "" || str_eq (repository_of agent fs) "None")
          then []
          else workstream_names (name_of agent fs) (workstreams_of agent fs))
  project_names v = []

  abbrev pub all_names : Values → List String
  all_names nothing = []
  all_names (item v vs) = project_names v ++ all_names vs

  abbrev pub Reported : CoreSnapshot → List String → Type 0
  Reported s names = All (λ (n : String). is_reported n s ≡ true) names

  abbrev Later : CoreSnapshot → CoreSnapshot → Type 0
  Later s t = (name : String) → is_reported name s ≡ true → is_reported name t ≡ true

  Reported-Later :
      (s t : CoreSnapshot) (names : List String) → Later s t → Reported s names → Reported t names
  Reported-Later s t [] l r = r
  Reported-Later s t (n ∷ ns) l r = (l n r.0, Reported-Later s t ns l r.1)

  collect_workstream_ok :
      (id name repository attention : String) (v : Value) (s t : CoreSnapshot)
      → collect_workstream agent id name repository attention v s ≡ ok t
      → (is_reported (workstream_name name v) t ≡ true) × Later s t
  unfolding collect_workstream
  collect_workstream_ok id name repository attention (mapping fs) s t h =
      elim (Bool-cases (is_falsy (get "state_path" fs))) [
        | inl e ↦
            (let subject = concat name (concat "/" (str agent (get_or "id" (text "unknown") fs))) in
              let left : add_finding error "workstream_state_path_missing" subject
                    "Workstream has no state_path" s
                  ≡ t =
                ground arith in
              (
                rw e (
                    subst (λ v. is_reported subject v ≡ true) left
                      (error_reported subject "workstream_state_path_missing"
                        "Workstream has no state_path" s)),
                λ n k.
                    subst (λ v. is_reported n v ≡ true) left
                      (add_finding_keeps n error "workstream_state_path_missing" subject
                        "Workstream has no state_path" s k),
              ))
        | inr e ↦
            (let done = rw e at h in
              let r = read_and_keep_ok agent _ _ s t done in (rw e (r.0), r.1))
      ]
  collect_workstream_ok id name repository attention v s t h = absurd (ground arith)

  collect_workstreams_ok :
      (id name repository attention : String) (vs : Values) (s t : CoreSnapshot)
      → collect_workstreams agent id name repository attention vs s ≡ ok t
      → Reported t (workstream_names name vs) × Later s t
  unfolding collect_workstreams
  collect_workstreams_ok id name repository attention nothing s t h =
      (tt, λ n k. (let same : s ≡ t = ground arith in subst (λ v. is_reported n v ≡ true) same k))
  collect_workstreams_ok id name repository attention (item v vs) s t h =
      let first = bind_ok (collect_workstream agent id name repository attention v s) _ t h in
      let one = collect_workstream_ok id name repository attention v s first.0 first.1 in
      let rest = collect_workstreams_ok id name repository attention vs first.0 t first.2 in
      ((rest.1 (workstream_name name v) one.0, rest.0), λ n k. rest.1 n (one.1 n k))

  collect_project_ok :
      (v : Value) (s t : CoreSnapshot)
      → collect_project agent v s ≡ ok t
      → Reported t (project_names v) × Later s t
  unfolding collect_project
  collect_project_ok (mapping fs) s t h = elim (Bool-cases (is_falsy (get "state_path" fs))) [
    | inl e ↦
        (let name = name_of agent fs in
          let left : add_finding error "state_path_missing" name
                "Project map entry has no state_path" s
              ≡ t =
            ground arith in
          (
            rw e (
              subst (λ v. is_reported name v ≡ true) left
                  (error_reported name "state_path_missing" "Project map entry has no state_path"
                    s),
              tt,
            ),
            λ n k.
                subst (λ v. is_reported n v ≡ true) left
                  (add_finding_keeps n error "state_path_missing" name
                    "Project map entry has no state_path" s k),
          ))
    | inr e ↦
        elim (Bool-cases
          (str_eq (repository_of agent fs) "" || str_eq (repository_of agent fs) "None")) [
            | inl f ↦
                (let name = name_of agent fs in
                  let left : add_finding error "repository_missing" name
                        "Project repository is not defined" s
                      ≡ t =
                    ground arith in
                  (
                    rw (e, f)
                        (
                          subst (λ v. is_reported name v ≡ true) left
                              (error_reported name "repository_missing"
                                "Project repository is not defined" s),
                          tt,
                        ),
                    λ n k.
                        subst (λ v. is_reported n v ≡ true) left
                          (add_finding_keeps n error "repository_missing" name
                            "Project repository is not defined" s k),
                  ))
            | inr f ↦
                (let q = project_request agent fs in
                  let status = str agent (get_or "state_status" (text "unknown") fs) in
                  let done = rw (e, f) at h in
                  let root = bind_ok (read_and_keep agent q status s) _ t done in
                  let own = read_and_keep_ok agent q status s root.0 root.1 in
                  let streams =
                    collect_workstreams_ok q.project_id q.project_name q.repository q.attention
                      (workstreams_of agent fs) root.0 t root.2 in
                  (
                    rw (e, f) (streams.1 q.project_name own.0, streams.0),
                    λ n k. streams.1 n (own.1 n k),
                  ))
          ]
  ]
  collect_project_ok v s t h = absurd (ground arith)

  collect_projects_ok :
      (vs : Values) (s t : CoreSnapshot)
      → collect_projects agent vs s ≡ ok t
      → Reported t (all_names vs) × Later s t
  unfolding collect_projects
  collect_projects_ok nothing s t h =
      (tt, λ n k. (let same : s ≡ t = ground arith in subst (λ v. is_reported n v ≡ true) same k))
  collect_projects_ok (item v vs) s t h =
      let first = bind_ok (collect_project agent v s) _ t h in
      let one = collect_project_ok v s first.0 first.1 in
      let rest = collect_projects_ok vs first.0 t first.2 in
      (
        All-append (λ (n : String). is_reported n t ≡ true) (project_names v) (all_names vs)
            (Reported-Later first.0 t (project_names v) rest.1 one.0) rest.0,
        λ n k. rest.1 n (one.1 n k),
      )

collected :
    (agent : Agent) (fs : Fields) (projects : Values) (s : CoreSnapshot)
    → get "projects" fs ≡ some (sequence projects)
    → collect_loaded agent (ok fs) ≡ ok s
    → collect_projects agent projects (new_snapshot agent) ≡ ok s
unfolding collect_loaded collect_list
collected agent fs projects s k e = rw k at e

-- If the project map is read, with a list of projects, and the collection returns, then every
-- project is reported: by a record under its name or by an error with its name as the subject. So
-- is every workstream of a project whose state has a path and a repository.
pub collect-Reported :
    (agent : Agent) (fs : Fields) (projects : Values) (s : CoreSnapshot)
    → load_yaml agent agent.central_repository agent.project_map_path "Core project map" ≡ ok fs
    → get "projects" fs ≡ some (sequence projects)
    → collect agent ≡ ok s
    → Reported agent s (all_names agent projects)
unfolding collect
collect-Reported agent fs projects s h k e =
    (collect_projects_ok agent projects (new_snapshot agent) s
      (collected agent fs projects s k (rw h at e))).0
