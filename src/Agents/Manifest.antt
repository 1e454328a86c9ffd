-- ===== src/Agents/Manifest.antt =====
-- The manifest that a contract is read back from.
use personal_ai_brain.Prelude.{
  String, ◌≡◌, refl, inl, inr, true, false, Bool-cases, Option, none, some, List, [], ◌∷◌, member,
  is_blank, str_eq, eq_iff, All, ok,
}
use personal_ai_brain.Prelude.Values.{
  Value, null, boolean, text, sequence, mapping, Values, nothing, item, end, field, values_of,
  texts-values_of,
}
use personal_ai_brain.Agents.{
  ContractError, ToolGrant, AgentContract, ResourcePolicy, ApprovalPolicy, EventPolicy,
  allowed_autonomy, allowed_tool_access, required_text, allowed_text, as_boolean, as_entrypoint,
  as_string_tuple, tool_from_mapping, tools_from_values, as_tools, resources_from_mapping,
  approval_from_mapping, events_from_mapping, validate_autonomy_boundary, from_mapping,
}
use personal_ai_brain.Agents.Validity.{IsTool, IsContract}

abbrev pub list_of : List String → Value
list_of ts = sequence (values_of ts)

abbrev pub tool_manifest : ToolGrant → Value
tool_manifest t = mapping (
    field "id" (text t.id) (
      field "access" (text t.access) (field "approval_required" (boolean t.approval_required) end)))

abbrev pub tool_manifests : List ToolGrant → Values
tool_manifests [] = nothing
tool_manifests (t ∷ ts) = item (tool_manifest t) (tool_manifests ts)

abbrev pub resources_manifest : ResourcePolicy → Value
resources_manifest r =
    mapping (field "reads" (list_of r.reads) (field "writes" (list_of r.writes) end))

abbrev pub approval_manifest : ApprovalPolicy → Value
approval_manifest a = mapping (field "required_for" (list_of a.required_for) end)

abbrev pub events_manifest : EventPolicy → Value
events_manifest e =
    mapping (field "consumes" (list_of e.consumes) (field "emits" (list_of e.emits) end))

abbrev pub entrypoint_manifest : Option String → Value
entrypoint_manifest none = null
entrypoint_manifest (some t) = text t

-- A contract written out with all its fields.
abbrev pub manifest : AgentContract → Value
manifest c = mapping (
    field "schema_version" (text c.schema_version) (
      field "id" (text c.id) (
        field "name" (text c.name) (
          field "version" (text c.version) (
            field "responsibility" (text c.responsibility) (
              field "autonomy" (text c.autonomy) (
                field "entrypoint" (entrypoint_manifest c.entrypoint) (
                  field "enabled" (boolean c.enabled) (
                    field "inputs" (list_of c.inputs) (
                      field "outputs" (list_of c.outputs) (
                        field "tools" (sequence (tool_manifests c.tools)) (
                          field "resources" (resources_manifest c.resources) (
                            field "approval" (approval_manifest c.approval)
                              (field "events" (events_manifest c.events) end))))))))))))))

as_string_tuple-list_of :
    (ts : List String) (name : String) → as_string_tuple (list_of ts) name ≡ ok ts
unfolding as_string_tuple
as_string_tuple-list_of ts name = rw (texts-values_of ts) refl

required_text-text :
    (name t : String) → is_blank t ≡ false → required_text name (some (text t)) ≡ ok t
unfolding required_text
required_text-text name t h = rw h refl

allowed_text-text :
    (allowed : List String) (e : ContractError) (t : String)
    → member t allowed ≡ true
    → allowed_text allowed e (some (text t)) ≡ ok t
unfolding allowed_text
allowed_text-text allowed e t h = rw h refl

tool_from_mapping-tool_manifest :
    (t : ToolGrant) → IsTool t → tool_from_mapping (tool_manifest t) ≡ ok t
unfolding tool_from_mapping as_boolean
tool_from_mapping-tool_manifest t h =
    rw
      (
        required_text-text "id" t.id h.named,
        allowed_text-text allowed_tool_access _ t.access h.access,
      )
      refl

tools_from_values-tool_manifests :
    (ts : List ToolGrant) → All IsTool ts → tools_from_values (tool_manifests ts) ≡ ok ts
unfolding tools_from_values
tools_from_values-tool_manifests [] h = refl
tools_from_values-tool_manifests (t ∷ ts) h =
    rw (tool_from_mapping-tool_manifest t h.0, tools_from_values-tool_manifests ts h.1) refl

as_entrypoint-entrypoint_manifest :
    (o : Option String) → as_entrypoint (entrypoint_manifest o) ≡ ok o
unfolding as_entrypoint
as_entrypoint-entrypoint_manifest none = refl
as_entrypoint-entrypoint_manifest (some t) = refl

validate_boundary : (c : AgentContract) → IsContract c → validate_autonomy_boundary c ≡ ok c
unfolding validate_autonomy_boundary
validate_boundary c h = elim (Bool-cases (str_eq c.autonomy "read_only")) [
  | inl e ↦
      (let same : c.autonomy ≡ "read_only" = (eq_iff c.autonomy "read_only").0 e in
        rw (e, h.tools_boundary same, h.writes_boundary same) refl)
  | inr e ↦ rw e refl
]

-- Every contract with the properties of an accepted one is accepted: from the manifest that has
-- all its fields, exactly that contract is read.
pub from_mapping-manifest : (c : AgentContract) → IsContract c → from_mapping (manifest c) ≡ ok c
unfolding from_mapping as_tools as_boolean resources_from_mapping approval_from_mapping
    events_from_mapping
from_mapping-manifest c h =
    rw
      (
        required_text-text "id" c.id h.id,
        required_text-text "name" c.name h.name,
        required_text-text "version" c.version h.version,
        required_text-text "responsibility" c.responsibility h.responsibility,
        required_text-text "schema_version" c.schema_version h.schema_version,
        allowed_text-text allowed_autonomy _ c.autonomy h.autonomy,
        as_entrypoint-entrypoint_manifest c.entrypoint,
        tools_from_values-tool_manifests c.tools h.tools,
        h.distinct,
        as_string_tuple-list_of c.inputs "inputs",
        as_string_tuple-list_of c.outputs "outputs",
        as_string_tuple-list_of c.resources.reads "resources.reads",
        as_string_tuple-list_of c.resources.writes "resources.writes",
        as_string_tuple-list_of c.approval.required_for "approval.required_for",
        as_string_tuple-list_of c.events.consumes "events.consumes",
        as_string_tuple-list_of c.events.emits "events.emits",
      )
      (validate_boundary c h)
