-- ===== src/Agents.antt =====
-- Agent contracts and their registry: src/personal_ai_brain/agent_contract.py and
-- agent_registry.py, on what `yaml.safe_load` returned.
pub mod Validity
pub mod Manifest
pub mod Registry
mod Tests
use personal_ai_brain.Prelude.{
  String, Bool, true, false, not, ◌&&◌, ◌||◌, Option, none, some, List, [], ◌∷◌, member, is_blank,
  str_eq, all, Result, ok, err, if◌then◌else◌,
}
use personal_ai_brain.Prelude.Values.{
  Value, null, boolean, integer, scalar, text, sequence, mapping, Values, nothing, item, Fields,
  end, field, get, get_or, is_hashable, texts, require, ◌>>=◌,
}

-- `AgentContractError` by what it complains of, and the TypeError of a value without a hash.
pub data ContractError : Type 0 where
  no_mapping bad_tools bad_access bad_approval bad_autonomy bad_entrypoint bad_enabled :
      ContractError
  duplicate_tool_ids mutating_tools writable_resources unhashable : ContractError
  no_text no_texts : String → ContractError

abbrev pub Checked : Type 0 → Type 0
Checked A = Result ContractError A

pub record ToolGrant : Type 0 where
  pub id : String
  pub access : String
  pub approval_required : Bool

pub record ResourcePolicy : Type 0 where
  pub reads : List String
  pub writes : List String

pub record ApprovalPolicy : Type 0 where
  pub required_for : List String

pub record EventPolicy : Type 0 where
  pub consumes : List String
  pub emits : List String

pub record AgentContract : Type 0 where
  pub schema_version : String
  pub id : String
  pub name : String
  pub version : String
  pub responsibility : String
  pub autonomy : String
  pub entrypoint : Option String
  pub enabled : Bool
  pub inputs : List String
  pub outputs : List String
  pub tools : List ToolGrant
  pub resources : ResourcePolicy
  pub approval : ApprovalPolicy
  pub events : EventPolicy

abbrev pub allowed_autonomy : List String
allowed_autonomy =
    "read_only" ∷ "draft_only" ∷ "write_with_approval" ∷ "bounded_write" ∷ "autonomous" ∷ []

abbrev pub allowed_tool_access : List String
allowed_tool_access = "read" ∷ "write" ∷ "execute" ∷ []

abbrev pub texts_or : ContractError → Option (List String) → Checked (List String)
texts_or e none = err e
texts_or e (some ts) = ok ts

unfoldable pub as_string_tuple : Value → String → Checked (List String)
as_string_tuple null name = ok []
as_string_tuple (sequence vs) name = texts_or (no_texts name) (texts vs)
as_string_tuple v name = err (no_texts name)

-- A text with a character that is no space.
unfoldable pub required_text : String → Option Value → Checked String
required_text name (some (text t)) = if is_blank t then err (no_text name) else ok t
required_text name v = err (no_text name)

-- `value in allowed`, for a set of texts.
unfoldable pub allowed_text : List String → ContractError → Option Value → Checked String
allowed_text allowed e none = err e
allowed_text allowed e (some (text t)) = if member t allowed then ok t else err e
allowed_text allowed e (some v) = if is_hashable v then err e else err unhashable

unfoldable pub as_boolean : ContractError → Value → Checked Bool
as_boolean e (boolean b) = ok b
as_boolean e v = err e

-- `ToolGrant.from_mapping`
unfoldable pub tool_from_mapping : Value → Checked ToolGrant
tool_from_mapping (mapping fs) = do
  id ← required_text "id" (get "id" fs)
  access ← allowed_text allowed_tool_access bad_access (get "access" fs)
  approval_required ← as_boolean bad_approval (get_or "approval_required" (boolean false) fs)
  ok (record { id = id; access = access; approval_required = approval_required })
tool_from_mapping v = err no_mapping

unfoldable pub tools_from_values : Values → Checked (List ToolGrant)
tools_from_values nothing = ok []
tools_from_values (item v vs) = do
  tool ← tool_from_mapping v
  tools ← tools_from_values vs
  ok (tool ∷ tools)

unfoldable pub as_tools : Value → Checked (List ToolGrant)
as_tools (sequence vs) = tools_from_values vs
as_tools v = err bad_tools

-- `ResourcePolicy.from_mapping`
unfoldable pub resources_from_mapping : Value → Checked ResourcePolicy
resources_from_mapping null = ok (record { reads = []; writes = [] })
resources_from_mapping (mapping fs) = do
  reads ← as_string_tuple (get_or "reads" (sequence nothing) fs) "resources.reads"
  writes ← as_string_tuple (get_or "writes" (sequence nothing) fs) "resources.writes"
  ok (record { reads = reads; writes = writes })
resources_from_mapping v = err no_mapping

-- `ApprovalPolicy.from_mapping`
unfoldable pub approval_from_mapping : Value → Checked ApprovalPolicy
approval_from_mapping null = ok (record { required_for = [] })
approval_from_mapping (mapping fs) = do
  required_for ←
      as_string_tuple (get_or "required_for" (sequence nothing) fs) "approval.required_for"
  ok (record { required_for = required_for })
approval_from_mapping v = err no_mapping

-- `EventPolicy.from_mapping`
unfoldable pub events_from_mapping : Value → Checked EventPolicy
events_from_mapping null = ok (record { consumes = []; emits = [] })
events_from_mapping (mapping fs) = do
  consumes ← as_string_tuple (get_or "consumes" (sequence nothing) fs) "events.consumes"
  emits ← as_string_tuple (get_or "emits" (sequence nothing) fs) "events.emits"
  ok (record { consumes = consumes; emits = emits })
events_from_mapping v = err no_mapping

unfoldable pub as_entrypoint : Value → Checked (Option String)
as_entrypoint null = ok none
as_entrypoint (text t) = ok (some t)
as_entrypoint v = err bad_entrypoint

-- `len(tool_ids) == len(set(tool_ids))`
unfoldable pub is_distinct : List ToolGrant → Bool
is_distinct [] = true
is_distinct (t ∷ ts) = all (λ (u : ToolGrant). not (str_eq t.id u.id)) ts && is_distinct ts

abbrev pub is_empty : List String → Bool
is_empty [] = true
is_empty (x ∷ xs) = false

-- `_validate_autonomy_boundary`
unfoldable pub validate_autonomy_boundary : AgentContract → Checked AgentContract
validate_autonomy_boundary c =
    if not (str_eq c.autonomy "read_only")
    then ok c
    else if not (all (λ (t : ToolGrant). str_eq t.access "read") c.tools)
    then err mutating_tools
    else if not (is_empty c.resources.writes)
    then err writable_resources
    else ok c

-- `AgentContract.from_mapping`
unfoldable pub from_mapping : Value → Checked AgentContract
from_mapping (mapping fs) = do
  id ← required_text "id" (get "id" fs)
  name ← required_text "name" (get "name" fs)
  version ← required_text "version" (get "version" fs)
  responsibility ← required_text "responsibility" (get "responsibility" fs)
  schema_version ← required_text "schema_version" (some (get_or "schema_version" (text "0.1") fs))
  autonomy ← allowed_text allowed_autonomy bad_autonomy (get "autonomy" fs)
  entrypoint ← as_entrypoint (get_or "entrypoint" null fs)
  enabled ← as_boolean bad_enabled (get_or "enabled" (boolean true) fs)
  tools ← as_tools (get_or "tools" (sequence nothing) fs)
  _ ← require (is_distinct tools) duplicate_tool_ids
  inputs ← as_string_tuple (get_or "inputs" (sequence nothing) fs) "inputs"
  outputs ← as_string_tuple (get_or "outputs" (sequence nothing) fs) "outputs"
  resources ← resources_from_mapping (get_or "resources" null fs)
  approval ← approval_from_mapping (get_or "approval" null fs)
  events ← events_from_mapping (get_or "events" null fs)
  validate_autonomy_boundary (record {
    schema_version = schema_version;
    id = id;
    name = name;
    version = version;
    responsibility = responsibility;
    autonomy = autonomy;
    entrypoint = entrypoint;
    enabled = enabled;
    inputs = inputs;
    outputs = outputs;
    tools = tools;
    resources = resources;
    approval = approval;
    events = events;
  })
from_mapping v = err no_mapping
