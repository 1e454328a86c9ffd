-- ===== src/Core/Kept.antt =====
-- What src/personal_ai_brain/core_agent.py has reported stays reported, and reading a state reports
-- its name.
use personal_ai_brain.Prelude.{
  String, ◌≡◌, refl, sym, ap, subst, ◌∙◌, ◌⊎◌, inl, inr, Bool, true, false, ◌&&◌, ◌||◌, Option,
  none, some, List, [], ◌∷◌, ◌++◌, any, str_eq, str_eq_refl, Result, ok, err, arith,
}
use personal_ai_brain.Prelude.Values.{Fields, get, bind_ok}
use personal_ai_brain.Core.{
  Severity, error, warning, Finding, StateRecord, CoreSnapshot, Agent, StateRequest, add_finding,
  add_record, load_yaml, sub_mapping, state_record, read_loaded, read_state, warn_if,
  validate_record, keep_record, read_and_keep,
}

abbrev is_error : Severity → Bool
is_error error = true
is_error warning = false

-- A snapshot has a record or an error under a name.
unfoldable pub is_reported : String → CoreSnapshot → Bool
is_reported name snapshot =
    any (λ (r : StateRecord). str_eq r.project_name name) snapshot.records
    || any (λ (f : Finding). is_error f.severity && str_eq f.subject name) snapshot.findings

pub any-append :
    {A : Type 0} (p : A → Bool) (xs : List A) (y : A) → any p (xs ++ y ∷ []) ≡ (any p xs || p y)
any-append p [] y = ground arith
any-append p (x ∷ xs) y = ground (arith, any-append p xs y)

module _ (name : String) where
  pub add_finding_keeps :
      (severity : Severity) (code subject message : String) (s : CoreSnapshot)
      → is_reported name s ≡ true
      → is_reported name (add_finding severity code subject message s) ≡ true
  unfolding is_reported
  add_finding_keeps severity code subject message s h = ground (
    arith,
    any-append (λ (f : Finding). is_error f.severity && str_eq f.subject name) s.findings
        (record { severity = severity; code = code; subject = subject; message = message }),
  )

  pub add_record_keeps :
      (r : StateRecord) (s : CoreSnapshot)
      → is_reported name s ≡ true
      → is_reported name (add_record r s) ≡ true
  unfolding is_reported
  add_record_keeps r s h =
      ground (arith, any-append (λ (x : StateRecord). str_eq x.project_name name) s.records r)

  warn_if_keeps :
      (agent : Agent) (b : Bool) (code subject message : String) (s : CoreSnapshot)
      → is_reported name s ≡ true
      → is_reported name (warn_if agent b code subject message s) ≡ true
  warn_if_keeps agent true code subject message s h =
      add_finding_keeps warning code subject message s h
  warn_if_keeps agent false code subject message s h = h

  pub error_reported :
      (code message : String) (s : CoreSnapshot)
      → is_reported name (add_finding error code name message s) ≡ true
  unfolding is_reported
  error_reported code message s = ground (
    arith,
    str_eq_refl name,
    any-append (λ (f : Finding). is_error f.severity && str_eq f.subject name) s.findings
        (record { severity = error; code = code; subject = name; message = message }),
  )

  record_reported :
      (r : StateRecord) (s : CoreSnapshot)
      → r.project_name ≡ name
      → is_reported name (add_record r s) ≡ true
  unfolding is_reported
  record_reported r s h = ground (
    arith,
    str_eq_refl name,
    any-append (λ (x : StateRecord). str_eq x.project_name name) s.records r,
  )

  validate_record_keeps :
      (agent : Agent) (r : StateRecord) (map_status : String) (s : CoreSnapshot)
      → is_reported name s ≡ true
      → is_reported name (validate_record agent r map_status s) ≡ true
  unfolding validate_record
  validate_record_keeps agent r map_status s h = search warn_if_keeps depth 8

module _ (agent : Agent) where
  -- `_read_state` leaves the error under the name, or returns a record under it.
  abbrev Read : StateRequest → CoreSnapshot → Option StateRecord × CoreSnapshot → Type 0
  Read q s (o, t) =
      ((o ≡ none) × (x : String) × (t ≡ add_finding error "state_unreadable" q.project_name x s))
      ⊎ ((x : StateRecord) × (o ≡ some x) × (x.project_name ≡ q.project_name) × (t ≡ s))

  read_loaded-Read :
      (q : StateRequest) (r : Result String Fields) (s : CoreSnapshot) (o : Option StateRecord)
      (t : CoreSnapshot)
      → read_loaded agent q r s ≡ ok (o, t)
      → Read q s (o, t)
  unfolding read_loaded state_record
  read_loaded-Read q (err message) s o t h = inl (ground arith, message, ground arith)
  read_loaded-Read q (ok state) s o t h =
      let verification = bind_ok (sub_mapping agent (get "verification" state)) _ (o, t) h in
      let sync = bind_ok (sub_mapping agent (get "sync" state)) _ (o, t) verification.2 in
      inr (state_record agent q state verification.0 sync.0, ground arith, refl, ground arith)

  kept_record :
      (q : StateRequest) (map_status : String) (s : CoreSnapshot) (o : Option StateRecord)
      (t : CoreSnapshot) (name : String)
      → Read q s (o, t)
      → is_reported name s ≡ true
      → is_reported name (keep_record agent map_status (o, t)) ≡ true
  unfolding keep_record
  kept_record q map_status s none t name (inl (e, x, f)) h =
      rw f (add_finding_keeps name error "state_unreadable" q.project_name x s h)
  kept_record q map_status s (some r) t name (inl (e, x, f)) h = absurd (ground arith)
  kept_record q map_status s none t name (inr (x, e, n, f)) h = absurd (ground arith)
  kept_record q map_status s (some r) t name (inr (x, e, n, f)) h =
      rw f (
        validate_record_keeps name agent r map_status (add_record r s)
          (add_record_keeps name r s h))

  named_record :
      (q : StateRequest) (map_status : String) (s : CoreSnapshot) (o : Option StateRecord)
      (t : CoreSnapshot)
      → Read q s (o, t)
      → is_reported q.project_name (keep_record agent map_status (o, t)) ≡ true
  unfolding keep_record
  named_record q map_status s none t (inl (e, x, f)) =
      rw f (error_reported q.project_name "state_unreadable" x s)
  named_record q map_status s (some r) t (inl (e, x, f)) = absurd (ground arith)
  named_record q map_status s none t (inr (x, e, n, f)) = absurd (ground arith)
  named_record q map_status s (some r) t (inr (x, e, n, f)) =
      let same : x ≡ r = ground arith in
      validate_record_keeps q.project_name agent r map_status (add_record r t) (
        record_reported q.project_name r t
          (sym (ap (λ (v : StateRecord). v.project_name) same) ∙ n))

  pub read_and_keep_ok :
      (q : StateRequest) (map_status : String) (s t : CoreSnapshot)
      → read_and_keep agent q map_status s ≡ ok t
      → (is_reported q.project_name t ≡ true)
        × ((name : String) → is_reported name s ≡ true → is_reported name t ≡ true)
  unfolding read_and_keep read_state
  read_and_keep_ok q map_status s t h =
      let r =
        bind_ok (read_loaded agent q (load_yaml agent q.repository q.path q.project_name) s) _ t
          h in
      let left : keep_record agent map_status r.0 ≡ t = ground arith in
      let c =
        read_loaded-Read q (load_yaml agent q.repository q.path q.project_name) s (r.0).0 (r.0).1
          r.1 in
      (
        subst (λ v. is_reported q.project_name v ≡ true) left
            (named_record q map_status s (r.0).0 (r.0).1 c),
        λ name k.
            subst (λ v. is_reported name v ≡ true) left
              (kept_record q map_status s (r.0).0 (r.0).1 name c k),
      )
