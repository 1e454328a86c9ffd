-- ===== src/Agents/Tests.antt =====
-- One agent's manifest, read and registered.
use personal_ai_brain.Prelude.{
  ◌≡◌, refl, true, false, none, [], ◌∷◌, length, All, member, is_blank, ok, err,
}
use personal_ai_brain.Prelude.Values.{
  Value, text, sequence, mapping, nothing, item, end, field, texts,
}
use personal_ai_brain.Agents.{
  AgentContract, from_mapping, required_text, allowed_text, as_boolean, as_entrypoint,
  as_string_tuple, tool_from_mapping, tools_from_values, as_tools, resources_from_mapping,
  approval_from_mapping, events_from_mapping, is_distinct, validate_autonomy_boundary, unhashable,
}
use personal_ai_brain.Agents.Validity.{IsContract, from_mapping-IsContract}
use personal_ai_brain.Agents.Manifest.{manifest, from_mapping-manifest}
use personal_ai_brain.Agents.Registry.{
  parsed, manifests, from_directory, register_all, register, load_agent_contract, converted,
}
use personal_ai_brain.Agents.Registry.Laws.{IsRegistered, from_directory-IsRegistered}

abbrev core_agent : Value
core_agent = mapping (
    field "id" (text "core-agent") (
      field "name" (text "Core Agent") (
        field "version" (text "0.1") (
          field "responsibility" (text "Report the state of the projects.") (
            field "autonomy" (text "read_only") (
              field "tools"
                (sequence (
                  item
                    (mapping (field "id" (text "github.read") (field "access" (text "read") end)))
                    nothing))
                (field "inputs" (sequence (item (text "project map") nothing)) end)))))))

abbrev core_contract : AgentContract
core_contract = record {
  schema_version = "0.1";
  id = "core-agent";
  name = "Core Agent";
  version = "0.1";
  responsibility = "Report the state of the projects.";
  autonomy = "read_only";
  entrypoint = none;
  enabled = true;
  inputs = "project map" ∷ [];
  outputs = [];
  tools = record { id = "github.read"; access = "read"; approval_required = false } ∷ [];
  resources = record { reads = []; writes = [] };
  approval = record { required_for = [] };
  events = record { consumes = []; emits = [] };
}

core_read : from_mapping core_agent ≡ ok core_contract
unfolding from_mapping required_text allowed_text as_boolean as_entrypoint as_string_tuple
    tool_from_mapping tools_from_values as_tools resources_from_mapping approval_from_mapping
    events_from_mapping is_distinct validate_autonomy_boundary is_blank member texts
core_read = refl

from_mapping-IsContract_example : IsContract core_contract
from_mapping-IsContract_example = from_mapping-IsContract core_agent core_contract core_read

core_contract-IsContract : IsContract core_contract
core_contract-IsContract = from_mapping-IsContract core_agent core_contract core_read

from_mapping-manifest_example : from_mapping (manifest core_contract) ≡ ok core_contract
from_mapping-manifest_example = from_mapping-manifest core_contract core_contract-IsContract

core_registered : from_directory (manifests (parsed core_agent ∷ [])) ≡ ok (core_contract ∷ [])
unfolding from_directory register_all register load_agent_contract converted from_mapping
    required_text allowed_text as_boolean as_entrypoint as_string_tuple tool_from_mapping
    tools_from_values as_tools resources_from_mapping approval_from_mapping events_from_mapping
    is_distinct validate_autonomy_boundary is_blank member texts
core_registered = refl

from_directory-IsRegistered_example :
    All (IsRegistered (core_contract ∷ [])) (parsed core_agent ∷ [])
    × (length (core_contract ∷ []) ≡ length (parsed core_agent ∷ []))
from_directory-IsRegistered_example =
    from_directory-IsRegistered (parsed core_agent ∷ []) (core_contract ∷ []) core_registered

-- A list where a set of texts is looked up ends in a TypeError.
list_of_autonomy :
    from_mapping (
      mapping (
        field "id" (text "a") (
          field "name" (text "b") (
            field "version"
              (text "c")
              (field "responsibility" (text "d") (field "autonomy" (sequence nothing) end))))))
    ≡ err unhashable
unfolding from_mapping required_text allowed_text is_blank
list_of_autonomy = refl
