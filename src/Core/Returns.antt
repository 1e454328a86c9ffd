-- ===== src/Core/Returns.antt =====
-- When `collect` of src/personal_ai_brain/core_agent.py returns.
use personal_ai_brain.Prelude.{
  String, ◌≡◌, refl, inl, inr, Bool, true, false, ◌&&◌, ◌||◌, Bool-cases, Option, none, some,
  str_eq, Result, ok, err, arith,
}
use personal_ai_brain.Prelude.Values.{
  Value, text, sequence, mapping, Values, nothing, item, Fields, end, get, get_or, is_falsy, ◌>>=◌,
}
use personal_ai_brain.Core.{
  CoreSnapshot, Agent, StateRequest, load_yaml, sub_mapping, read_loaded, read_state, read_and_keep,
  collect_workstream, collect_workstreams, workstreams_of, repository_of, project_request,
  collect_project, collect_projects, new_snapshot, collect_list, collect_loaded, collect, str,
}

-- What a call returns.
abbrev pub Returns : {E A : Type 0} → Result E A → Type 0
Returns {E} {A} r = (a : A) × (r ≡ ok a)

bind-Returns :
    {E A B : Type 0} (m : Result E A) (f : A → Result E B)
    → Returns m
    → ((a : A) → Returns (f a))
    → Returns (m >>= f)
bind-Returns (ok a) f h k = k a
bind-Returns (err e) f h k = absurd (let e = h.1 in ground arith)

abbrev pub is_mapping : Value → Bool
is_mapping (mapping fs) = true
is_mapping v = false

-- A value that `value or {}` makes a mapping of.
abbrev pub is_mapping_or_falsy : Option Value → Bool
is_mapping_or_falsy (some (mapping fs)) = true
is_mapping_or_falsy v = is_falsy v

abbrev pub are_mappings : Values → Bool
are_mappings nothing = true
are_mappings (item v vs) = is_mapping v && are_mappings vs

-- A list of projects that are mappings, whose workstreams are mappings.
abbrev pub are_projects : Agent → Values → Bool
are_projects agent nothing = true
are_projects agent (item (mapping fs) vs) =
    are_mappings (workstreams_of agent fs) && are_projects agent vs
are_projects agent (item v vs) = false

-- Every state that the reader gives has, where it is a mapping, a mapping or nothing under
-- `verification` and `sync`.
abbrev pub HasStates : Agent → Type 0
HasStates agent =
    (repository path subject : String) (fs : Fields)
    → load_yaml agent repository path subject ≡ ok fs
    → (is_mapping_or_falsy (get "verification" fs) && is_mapping_or_falsy (get "sync" fs)) ≡ true

module _ (agent : Agent) (states : HasStates agent) where
  sub_mapping-Returns :
      (o : Option Value) → is_mapping_or_falsy o ≡ true → Returns (sub_mapping agent o)
  unfolding sub_mapping
  sub_mapping-Returns (some (mapping fs)) h = (fs, refl)
  sub_mapping-Returns none h = (end, refl)
  sub_mapping-Returns v h = (end, ground arith)

  read_loaded-Returns :
      (q : StateRequest) (r : Result String Fields) (s : CoreSnapshot)
      → ((fs : Fields)
          → r ≡ ok fs
          → (is_mapping_or_falsy (get "verification" fs) && is_mapping_or_falsy (get "sync" fs))
            ≡ true)
      → Returns (read_loaded agent q r s)
  unfolding read_loaded
  read_loaded-Returns q (err message) s h = (_, refl)
  read_loaded-Returns q (ok state) s h =
      let fine = h state refl in
      bind-Returns (sub_mapping agent (get "verification" state)) _
        (sub_mapping-Returns (get "verification" state) (ground arith))
        (λ v.
          bind-Returns (sub_mapping agent (get "sync" state)) _
            (sub_mapping-Returns (get "sync" state) (ground arith)) (λ w. (_, refl)))

  read_and_keep-Returns :
      (q : StateRequest) (status : String) (s : CoreSnapshot)
      → Returns (read_and_keep agent q status s)
  unfolding read_and_keep read_state
  read_and_keep-Returns q status s =
      bind-Returns (read_loaded agent q (load_yaml agent q.repository q.path q.project_name) s) _
        (read_loaded-Returns q (load_yaml agent q.repository q.path q.project_name) s
          (states q.repository q.path q.project_name))
        (λ r. (_, refl))

  collect_workstream-Returns :
      (id name repository attention : String) (v : Value) (s : CoreSnapshot)
      → is_mapping v ≡ true
      → Returns (collect_workstream agent id name repository attention v s)
  unfolding collect_workstream
  collect_workstream-Returns id name repository attention (mapping fs) s h =
      elim (Bool-cases (is_falsy (get "state_path" fs))) [
        | inl e ↦ rw e (_, refl)
        | inr e ↦ rw e (read_and_keep-Returns _ _ s)
      ]
  collect_workstream-Returns id name repository attention v s h = absurd (ground arith)

  collect_workstreams-Returns :
      (id name repository attention : String) (vs : Values) (s : CoreSnapshot)
      → are_mappings vs ≡ true
      → Returns (collect_workstreams agent id name repository attention vs s)
  unfolding collect_workstreams
  collect_workstreams-Returns id name repository attention nothing s h = (s, refl)
  collect_workstreams-Returns id name repository attention (item v vs) s h =
      bind-Returns (collect_workstream agent id name repository attention v s) _
        (collect_workstream-Returns id name repository attention v s (ground arith))
        (λ t. collect_workstreams-Returns id name repository attention vs t (ground arith))

  collect_project-Returns :
      (fs : Fields) (s : CoreSnapshot)
      → are_mappings (workstreams_of agent fs) ≡ true
      → Returns (collect_project agent (mapping fs) s)
  unfolding collect_project
  collect_project-Returns fs s h = elim (Bool-cases (is_falsy (get "state_path" fs))) [
    | inl e ↦ rw e (_, refl)
    | inr e ↦
        elim (Bool-cases
          (str_eq (repository_of agent fs) "" || str_eq (repository_of agent fs) "None")) [
            | inl f ↦ rw (e, f) (_, refl)
            | inr f ↦
                (let q = project_request agent fs in
                  let status = str agent (get_or "state_status" (text "unknown") fs) in
                  rw (e, f)
                    (bind-Returns (read_and_keep agent q status s) _
                      (read_and_keep-Returns q status s)
                      (λ root.
                        collect_workstreams-Returns q.project_id q.project_name q.repository
                          q.attention (workstreams_of agent fs) root h)))
          ]
  ]

  collect_projects-Returns :
      (vs : Values) (s : CoreSnapshot)
      → are_projects agent vs ≡ true
      → Returns (collect_projects agent vs s)
  unfolding collect_projects
  collect_projects-Returns nothing s h = (s, refl)
  collect_projects-Returns (item (mapping fs) vs) s h =
      bind-Returns (collect_project agent (mapping fs) s) _
        (collect_project-Returns fs s (ground arith))
        (λ t. collect_projects-Returns vs t (ground arith))
  collect_projects-Returns (item v vs) s h = absurd (ground arith)

-- The projects that the map lists, if it can be read and has a list.
abbrev pub listed : Result String Fields → Values
listed (err message) = nothing
listed (ok fs) = elim (get "projects" fs) [ some (sequence vs) ↦ vs | _ ↦ nothing ]

collect_list-Returns :
    (agent : Agent) (o : Option Value)
    → HasStates agent
    → are_projects agent (elim o [ some (sequence vs) ↦ vs | _ ↦ nothing ]) ≡ true
    → Returns (collect_list agent o)
unfolding collect_list
collect_list-Returns agent (some (sequence vs)) h k =
    collect_projects-Returns agent h vs (new_snapshot agent) k
collect_list-Returns agent v h k = (_, refl)

-- The collection returns, whatever can be read or not, if the projects that the map lists and
-- their workstreams are mappings, and each state has a mapping or nothing under `verification` and
-- `sync`.
pub collect-Returns :
    (agent : Agent)
    → HasStates agent
    → are_projects agent (
        listed (load_yaml agent agent.central_repository agent.project_map_path "Core project map"))
      ≡ true
    → Returns (collect agent)
unfolding collect collect_loaded
collect-Returns agent h k =
    go (load_yaml agent agent.central_repository agent.project_map_path "Core project map") k
  where
    go :
        (r : Result String Fields)
        → are_projects agent (listed r) ≡ true
        → Returns (collect_loaded agent r)
    go (err message) k = (_, refl)
    go (ok fs) k = collect_list-Returns agent (get "projects" fs) h k
