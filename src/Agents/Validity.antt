-- ===== src/Agents/Validity.antt =====
-- What an accepted contract satisfies.
use personal_ai_brain.Prelude.{
  String, ◌≡◌, refl, subst, inl, inr, Bool, true, false, Bool-cases, Option, some, List, [], ◌∷◌,
  member, is_blank, str_eq, all, All, Result, eq_iff, ok, err, arith,
}
use personal_ai_brain.Prelude.Values.{
  Value, null, boolean, text, sequence, mapping, Values, nothing, item, get, get_or, require, ◌>>=◌,
}
use personal_ai_brain.Agents.{
  ContractError, no_mapping, bad_autonomy, bad_enabled, duplicate_tool_ids, as_entrypoint,
  as_string_tuple, resources_from_mapping, approval_from_mapping, events_from_mapping, ToolGrant,
  AgentContract, allowed_autonomy, allowed_tool_access, required_text, allowed_text, as_boolean,
  tool_from_mapping, tools_from_values, as_tools, is_distinct, is_empty, validate_autonomy_boundary,
  from_mapping,
}

pub record IsTool (t : ToolGrant) : Type 0 where
  pub named : is_blank t.id ≡ false
  pub access : member t.access allowed_tool_access ≡ true

-- A read-only agent has no tool that writes or executes and writes no resource.
pub record IsContract (c : AgentContract) : Type 0 where
  pub id : is_blank c.id ≡ false
  pub name : is_blank c.name ≡ false
  pub version : is_blank c.version ≡ false
  pub responsibility : is_blank c.responsibility ≡ false
  pub schema_version : is_blank c.schema_version ≡ false
  pub autonomy : member c.autonomy allowed_autonomy ≡ true
  pub tools : All IsTool c.tools
  pub distinct : is_distinct c.tools ≡ true
  pub tools_boundary :
      c.autonomy ≡ "read_only" → all (λ (t : ToolGrant). str_eq t.access "read") c.tools ≡ true
  pub writes_boundary : c.autonomy ≡ "read_only" → is_empty c.resources.writes ≡ true

-- What a result satisfies if there is one.
record Ensures {E A : Type 0} (P : A → Type 0) (m : Result E A) : Type 0 where
  result : (a : A) → m ≡ ok a → P a

module _ {E A B : Type 0} (P : B → Type 0) where
  bind-Ensures :
      (m : Result E A) (f : A → Result E B)
      → ((a : A) → m ≡ ok a → Ensures P (f a))
      → Ensures P (m >>= f)
  bind-Ensures (ok a) f h = h a refl
  bind-Ensures (err e) f h = record { result = λ b k. absurd (ground arith) }

ok-Ensures : {E A : Type 0} (P : A → Type 0) (a : A) → P a → Ensures {E = E} P (ok a)
ok-Ensures P a h = record { result = λ b k. (let same : a ≡ b = ground arith in subst P same h) }

required_text_ok :
    (name : String) (v : Option Value) (t : String)
    → required_text name v ≡ ok t
    → is_blank t ≡ false
unfolding required_text
required_text_ok name (some (text u)) t h = ground arith
required_text_ok name v t h = absurd (ground arith)

allowed_text_ok :
    (allowed : List String) (e : ContractError) (v : Option Value) (t : String)
    → allowed_text allowed e v ≡ ok t
    → member t allowed ≡ true
unfolding allowed_text
allowed_text_ok allowed e (some (text u)) t h = elim (Bool-cases (member u allowed)) [
  | inl m ↦ (let same : u ≡ t = ground arith in subst (λ v. member v allowed ≡ true) same m)
  | inr m ↦ absurd (ground arith)
]
allowed_text_ok allowed e v t h = absurd (ground arith)

require_ok : (b : Bool) (e : ContractError) (u : Unit {0}) → require b e ≡ ok u → b ≡ true
require_ok true e u h = refl
require_ok false e u h = absurd (ground arith)

accept_grant :
    (name : String) (v w : Option Value) (e : ContractError) (b : Bool) (id access : String)
    → required_text name v ≡ ok id
    → allowed_text allowed_tool_access e w ≡ ok access
    → Ensures {E = ContractError} IsTool
        (ok (record { id = id; access = access; approval_required = b }))
accept_grant name v w e b id access h k = ok-Ensures IsTool _ (record {
  named = required_text_ok name v id h;
  access = allowed_text_ok allowed_tool_access e w access k;
})

tool_from_mapping-IsTool : (v : Value) → Ensures IsTool (tool_from_mapping v)
unfolding tool_from_mapping
tool_from_mapping-IsTool (mapping fs) = search (bind-Ensures IsTool, accept_grant) depth 8
tool_from_mapping-IsTool v = record { result = λ b k. absurd (ground arith) }

accept_grants :
    (v : Value) (e : ContractError) (t : ToolGrant) (vs : Values) (ts : List ToolGrant)
    → tool_from_mapping v ≡ ok t
    → Ensures {E = ContractError} (All IsTool) (tools_from_values vs)
    → tools_from_values vs ≡ ok ts
    → Ensures {E = ContractError} (All IsTool) (ok (t ∷ ts))
accept_grants v e t vs ts h all k =
    ok-Ensures (All IsTool) (t ∷ ts) ((tool_from_mapping-IsTool v).result t h, all.result ts k)

tools_from_values-All : (vs : Values) → Ensures (All IsTool) (tools_from_values vs)
unfolding tools_from_values
tools_from_values-All nothing = ok-Ensures (All IsTool) [] tt
tools_from_values-All (item v vs) =
    let rest = tools_from_values-All vs in
    bind-Ensures (All IsTool) (tool_from_mapping v)
      (λ t. tools_from_values vs >>= λ ts. ok (t ∷ ts))
      (λ t h.
        bind-Ensures (All IsTool) (tools_from_values vs) (λ ts. ok (t ∷ ts))
          (λ ts k. accept_grants v no_mapping t vs ts h rest k))

as_tools_ok : (v : Value) (ts : List ToolGrant) → as_tools v ≡ ok ts → All IsTool ts
unfolding as_tools
as_tools_ok (sequence vs) ts h = (tools_from_values-All vs).result ts h
as_tools_ok v ts h = absurd (ground arith)

boundary_kept :
    (c : AgentContract)
    → ((str_eq c.autonomy "read_only" ≡ true
          → all (λ (t : ToolGrant). str_eq t.access "read") c.tools ≡ true)
        → (str_eq c.autonomy "read_only" ≡ true → is_empty c.resources.writes ≡ true)
        → IsContract c)
    → Ensures IsContract (validate_autonomy_boundary c)
unfolding validate_autonomy_boundary
boundary_kept c k = elim (Bool-cases (str_eq c.autonomy "read_only")) [
  | inl e ↦ elim (Bool-cases (all (λ (t : ToolGrant). str_eq t.access "read") c.tools)) [
    | inl f ↦ elim (Bool-cases (is_empty c.resources.writes)) [
      | inl g ↦ rw (e, f, g) (ok-Ensures IsContract c (k (λ _. f) (λ _. g)))
      | inr g ↦ rw (e, f, g) (record { result = λ b h. absurd (ground arith) })
    ]
    | inr f ↦ rw (e, f) (record { result = λ b h. absurd (ground arith) })
  ]
  | inr e ↦
      rw e (ok-Ensures IsContract c (k (λ h. absurd (ground arith)) (λ h. absurd (ground arith))))
]

accept_all :
    (a b c d e f : Option Value) (x : ContractError) (tools : Value) (duplicate : ContractError)
    (u : Unit {0}) (k : AgentContract)
    → required_text "id" a ≡ ok k.id
    → required_text "name" b ≡ ok k.name
    → required_text "version" c ≡ ok k.version
    → required_text "responsibility" d ≡ ok k.responsibility
    → required_text "schema_version" e ≡ ok k.schema_version
    → allowed_text allowed_autonomy x f ≡ ok k.autonomy
    → as_tools tools ≡ ok k.tools
    → require (is_distinct k.tools) duplicate ≡ ok u
    → Ensures IsContract (validate_autonomy_boundary k)
accept_all a b c d e f x tools duplicate u k ha hb hc hd he hf ht hu = boundary_kept k (λ p q.
    record {
      id = required_text_ok "id" a k.id ha;
      name = required_text_ok "name" b k.name hb;
      version = required_text_ok "version" c k.version hc;
      responsibility = required_text_ok "responsibility" d k.responsibility hd;
      schema_version = required_text_ok "schema_version" e k.schema_version he;
      autonomy = allowed_text_ok allowed_autonomy x f k.autonomy hf;
      tools = as_tools_ok tools k.tools ht;
      distinct = require_ok (is_distinct k.tools) duplicate u hu;
      tools_boundary = λ r. p ((eq_iff k.autonomy "read_only").1 r);
      writes_boundary = λ r. q ((eq_iff k.autonomy "read_only").1 r);
    })

from_mapping-Ensures : (v : Value) → Ensures IsContract (from_mapping v)
unfolding from_mapping
from_mapping-Ensures (mapping fs) =
    bind-Ensures IsContract (required_text "id" (get "id" fs)) _ (λ id h0.
      bind-Ensures IsContract (required_text "name" (get "name" fs)) _ (λ name h1.
        bind-Ensures IsContract (required_text "version" (get "version" fs)) _ (λ version h2.
          bind-Ensures IsContract (required_text "responsibility" (get "responsibility" fs)) _
            (λ responsibility h3.
              bind-Ensures IsContract
                (required_text "schema_version" (some (get_or "schema_version" (text "0.1") fs))) _
                (λ schema_version h4.
                  bind-Ensures IsContract
                    (allowed_text allowed_autonomy bad_autonomy (get "autonomy" fs)) _
                    (λ autonomy h5.
                      bind-Ensures IsContract (as_entrypoint (get_or "entrypoint" null fs)) _
                        (λ entrypoint h6.
                          bind-Ensures IsContract
                            (as_boolean bad_enabled (get_or "enabled" (boolean true) fs)) _
                            (λ enabled h7.
                              bind-Ensures IsContract
                                (as_tools (get_or "tools" (sequence nothing) fs)) _
                                (λ tools h8.
                                  bind-Ensures IsContract
                                    (require (is_distinct tools) duplicate_tool_ids) _
                                    (λ distinct h9.
                                      bind-Ensures IsContract
                                        (as_string_tuple (get_or "inputs" (sequence nothing) fs)
                                          "inputs")
                                        _
                                        (λ inputs h10.
                                          bind-Ensures IsContract
                                            (as_string_tuple
                                              (get_or "outputs" (sequence nothing) fs) "outputs")
                                            _
                                            (λ outputs h11.
                                              bind-Ensures IsContract
                                                (resources_from_mapping
                                                  (get_or "resources" null fs))
                                                _
                                                (λ resources h12.
                                                  bind-Ensures IsContract
                                                    (approval_from_mapping
                                                      (get_or "approval" null fs))
                                                    _
                                                    (λ approval h13.
                                                      bind-Ensures IsContract
                                                        (events_from_mapping
                                                          (get_or "events" null fs))
                                                        _
                                                        (λ events h14.
                                                          accept_all _ _ _ _ _ _ _ _ _ _ _ h0 h1 h2
                                                            h3 h4 h5 h8 h9)))))))))))))))
from_mapping-Ensures v = record { result = λ b k. absurd (ground arith) }

-- An accepted contract has texts that are not blank where they are required, a known autonomy,
-- tools that are named apart, each with a name and a known access, and if it is read-only, no tool
-- that writes or executes and no resource that it writes.
pub from_mapping-IsContract : (v : Value) (c : AgentContract) → from_mapping v ≡ ok c → IsContract c
from_mapping-IsContract v c h = (from_mapping-Ensures v).result c h
