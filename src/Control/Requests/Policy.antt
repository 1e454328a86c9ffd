-- ===== src/Control/Requests/Policy.antt =====
-- What a parsed request and a resolved capability of src/personal_ai_brain/control.py satisfy.
use personal_ai_brain.Prelude.{
  ℕ, ◌+◌, ◌≤◌, String, ◌≡◌, refl, sym, ap, subst, ◌∙◌, ◌⊎◌, inl, inr, Bool, true, false, not, ◌&&◌,
  ◌||◌, Bool-cases, Option-cases, Option, none, some, [], ◌∷◌, ◌++◌, leb, any, find?, find?-passes,
  All, All-find?, All-append, member, str_eq, eq_iff, ok, arith,
}
use personal_ai_brain.Prelude.Values.{Value, text, mapping, get, require, bind_ok}
use personal_ai_brain.Control.Requests.{
  Json, malformed, duplicate_json_key, parsed, Reader, Request, has_fields, is_token, is_text_of,
  as_text, as_arguments, as_request_id, is_in_window, check_time, parse_data, parse_json,
  parse_request, Capability, Capabilities, is_bounded_work, register_capability,
  register_capabilities, resolve,
}

-- A capability without side effects, or one of the two that hand over bounded work.
abbrev pub IsAllowed : Capability → Type 0
IsAllowed c =
    ((c.risk_level ≡ "read_only") × (c.side_effect_class ≡ "none"))
    ⊎ ((member c.id ("work.submit" ∷ "work.cancel" ∷ []) ≡ true)
        × (c.risk_level ≡ "bounded_work")
        × (c.side_effect_class ≡ "local_work_handoff"))

and_cases : (a b : Bool) → (a && b) ≡ true → (a ≡ true) × (b ≡ true)
and_cases true b h = (refl, h)
and_cases false b h = absurd (ground arith)

policy-IsAllowed :
    (c : Capability)
    → (not (is_bounded_work c)
        && (not (str_eq c.risk_level "read_only") || not (str_eq c.side_effect_class "none")))
      ≡ false
    → IsAllowed c
policy-IsAllowed c h = elim (Bool-cases (is_bounded_work c)) [
  | inl e ↦
      (let outer = and_cases _ _ e in
        let inner = and_cases _ _ outer.1 in
        inr (
          outer.0,
          (eq_iff c.risk_level "bounded_work").0 inner.0,
          (eq_iff c.side_effect_class "local_work_handoff").0 inner.1,
        ))
  | inr e ↦
      (let risk : str_eq c.risk_level "read_only" ≡ true = ground arith in
        let effect : str_eq c.side_effect_class "none" ≡ true = ground arith in
        inl
          ((eq_iff c.risk_level "read_only").0 risk, (eq_iff c.side_effect_class "none").0 effect))
]

register_capability-IsAllowed :
    (c : Capability) (cs more : Capabilities)
    → register_capability c cs ≡ ok more
    → All IsAllowed cs
    → All IsAllowed more
unfolding register_capability
register_capability-IsAllowed c cs more h a =
    elim (Bool-cases (any (λ (x : Capability). str_eq x.id c.id) cs)) [
      | inl e ↦ absurd (ground arith)
      | inr e ↦
          elim (Bool-cases (
            not (is_bounded_work c)
            && (not (str_eq c.risk_level "read_only")
                || not (str_eq c.side_effect_class "none")))) [
                  | inl f ↦ absurd (let k = rw (e, f) at h in ground arith)
                  | inr f ↦
                      (let k : ok (cs ++ c ∷ []) ≡ ok more = rw (e, f) at h in
                        let same : cs ++ c ∷ [] ≡ more = cc in
                        subst (λ v. All IsAllowed v) same
                          (All-append IsAllowed cs (c ∷ []) a (policy-IsAllowed c f, tt)))
                ]
    ]

register_capabilities-All :
    (cs known more : Capabilities)
    → register_capabilities cs known ≡ ok more
    → All IsAllowed known
    → All IsAllowed more
unfolding register_capabilities
register_capabilities-All [] known more h a =
    (let same : known ≡ more = ground arith in subst (λ v. All IsAllowed v) same a)
register_capabilities-All (c ∷ cs) known more h a =
    let one = bind_ok (register_capability c known) _ more h in
    register_capabilities-All cs one.0 more one.2
      (register_capability-IsAllowed c known one.0 one.1 a)

-- A capability that a registry resolves is the one asked for, and has no side effect and only
-- reads, unless it is work.submit or work.cancel, which hand over bounded work.
pub resolve-IsAllowed :
    (cs known : Capabilities) (name : String) (c : Capability)
    → register_capabilities cs [] ≡ ok known
    → resolve name known ≡ ok c
    → (c.id ≡ name) × IsAllowed c
unfolding resolve
resolve-IsAllowed cs known name c h k =
    elim (Option-cases (find? (λ (x : Capability). str_eq x.id name) known)) [
      | inl e ↦ absurd (ground arith)
      | inr e ↦
          (let same : e.0 ≡ c = ground arith in
            let found : find? (λ (x : Capability). str_eq x.id name) known ≡ some c =
              e.1 ∙ ap some same in
            (
              (eq_iff c.id name).0
                  (find?-passes (λ (x : Capability). str_eq x.id name) known c found),
              All-find? IsAllowed (λ (x : Capability). str_eq x.id name) known c
                  (register_capabilities-All cs [] known h tt) found,
            ))
    ]

-- A request with a canonical UUID, tokens for names, and a time in the window.
pub record IsRequest (r : Reader) (q : Request) : Type 0 where
  pub id : r.uuid q.request_id ≡ some q.request_id
  pub capability : is_token q.capability ≡ true
  pub requested_by : is_token q.requested_by ≡ true
  pub shape : r.is_date_shape q.requested_at ≡ true
  pub at : ℕ
  pub instant : r.instant q.requested_at ≡ some at
  pub not_future : at ≤ r.now + 300000000
  pub not_expired : r.now ≤ at + 604800000000

as_text_ok :
    (p : String → Bool) (code : String) (v : Option Value) (t : String)
    → as_text p code v ≡ ok t
    → p t ≡ true
unfolding as_text
as_text_ok p code (some (text u)) t h = elim (Bool-cases (p u)) [
  | inl e ↦ (let same : u ≡ t = ground arith in subst (λ v. p v ≡ true) same e)
  | inr e ↦ absurd (ground arith)
]
as_text_ok p code v t h = absurd (ground arith)

module _ (r : Reader) where
  as_request_id_ok : (v : Option Value) (t : String) → as_request_id r v ≡ ok t → r.uuid t ≡ some t
  unfolding as_request_id
  as_request_id_ok (some (text u)) t h = elim (Option-cases (r.uuid u)) [
    | inl e ↦ absurd (ground arith)
    | inr e ↦
        (let shown : str_eq e.0 u ≡ true = ground arith in
          let same : u ≡ t = ground arith in
          let canonical : e.0 ≡ u = (eq_iff e.0 u).0 shown in
          ap (λ v. r.uuid v) (sym same) ∙ e.1 ∙ ap some (canonical ∙ same))
  ]
  as_request_id_ok v t h = absurd (ground arith)

  check_time_ok :
      (d t : String) (o : Option ℕ)
      → r.instant d ≡ o
      → check_time r d o ≡ ok t
      → (at : ℕ) × (d ≡ t)
        × (r.instant d ≡ some at)
        × (at ≤ r.now + 300000000)
        × (r.now ≤ at + 604800000000)
  unfolding check_time
  check_time_ok d t none e h = absurd (ground arith)
  check_time_ok d t (some at) e h = elim (Bool-cases (is_in_window r at)) [
    | inl i ↦ (at, ground arith, e, ground arith, ground arith)
    | inr i ↦ absurd (ground arith)
  ]

  parse_data-IsRequest : (v : Value) (q : Request) → parse_data r v ≡ ok q → IsRequest r q
  unfolding parse_data
  parse_data-IsRequest (mapping fs) q h =
      let a = bind_ok (require (has_fields fs) "request_schema") _ q h in
      let b =
        bind_ok (require (is_text_of "0.1" (get "schema_version" fs)) "request_schema") _ q a.2 in
      let id = bind_ok (as_request_id r (get "request_id" fs)) _ q b.2 in
      let capability = bind_ok (as_text is_token "request_schema" (get "capability" fs)) _ q id.2 in
      let by =
        bind_ok (as_text is_token "request_schema" (get "requested_by" fs)) _ q capability.2 in
      let arguments = bind_ok (as_arguments (get "arguments" fs)) _ q by.2 in
      let date =
        bind_ok (as_text r.is_date_shape "requested_at" (get "requested_at" fs)) _ q arguments.2 in
      let time = bind_ok (check_time r date.0 (r.instant date.0)) _ q date.2 in
      let same : record {
        request_id = id.0;
        capability = capability.0;
        arguments = arguments.0;
        requested_by = by.0;
        requested_at = time.0;
      }
          ≡ q =
        ground arith in
      let checked = check_time_ok date.0 time.0 (r.instant date.0) refl time.1 in
      subst (IsRequest r) same (record {
        id = as_request_id_ok (get "request_id" fs) id.0 id.1;
        capability =
            as_text_ok is_token "request_schema" (get "capability" fs) capability.0 capability.1;
        requested_by = as_text_ok is_token "request_schema" (get "requested_by" fs) by.0 by.1;
        shape =
            subst (λ v. r.is_date_shape v ≡ true) checked.1
              (as_text_ok r.is_date_shape "requested_at" (get "requested_at" fs) date.0 date.1);
        at = checked.0;
        instant = subst (λ v. r.instant v ≡ some checked.0) checked.1 checked.2;
        not_future = checked.3;
        not_expired = checked.4;
      })
  parse_data-IsRequest v q h = absurd (ground arith)

-- A body that is parsed is at most 8,192 bytes, and the request that it gives has a canonical UUID,
-- a capability and a requester that are tokens, and a time of the required shape at most five
-- minutes ahead and seven days old.
pub parse_request-IsRequest :
    (r : Reader) (body : String) (q : Request)
    → parse_request r (some body) ≡ ok q
    → (r.utf8_length body ≤ 8192) × IsRequest r q
unfolding parse_request parse_json
parse_request-IsRequest r body q h = elim (Bool-cases (leb (r.utf8_length body) 8192)) [
  | inl e ↦ (ground arith, go (r.json body) (rw e at h))
  | inr e ↦ absurd (ground arith)
]
  where
    go : (j : Json) → parse_json r j ≡ ok q → IsRequest r q
    go malformed k = absurd (ground arith)
    go duplicate_json_key k = absurd (ground arith)
    go (parsed v) k = parse_data-IsRequest r v q k
