-- ===== src/Agents/Registry.antt =====
-- The registry of src/personal_ai_brain/agent_registry.py.
pub mod Laws
use personal_ai_brain.Prelude.{
  String, Bool, true, false, not, Option, none, some, List, [], ◌∷◌, ◌++◌, str_eq, text_leb, any,
  keep, find?, Result, ok, err, if◌then◌else◌,
}
use personal_ai_brain.Prelude.Values.{Value, ◌>>=◌}
use personal_ai_brain.Agents.{ContractError, unhashable, AgentContract, from_mapping}

-- `AgentRegistryError` by what it complains of, and a TypeError, which nothing converts.
pub data RegistryError : Type 0 where
  no_directory not_directory no_manifests duplicate_id unknown_id type_error : RegistryError
  unreadable bad_yaml : RegistryError
  bad_contract : ContractError → RegistryError

-- A manifest's file, as it was read and parsed.
pub data File : Type 0 where
  unreadable_file bad_yaml_file : File
  parsed : Value → File

-- A directory with its manifests by their sorted paths.
pub data Directory : Type 0 where
  missing no_dir : Directory
  manifests : List File → Directory

-- `AgentRegistry.agents`, first registered first.
abbrev pub Registry : Type 0
Registry = List AgentContract

unfoldable pub converted : Result ContractError AgentContract → Result RegistryError AgentContract
converted (ok c) = ok c
converted (err unhashable) = err type_error
converted (err e) = err (bad_contract e)

-- `load_agent_contract`
unfoldable pub load_agent_contract : File → Result RegistryError AgentContract
load_agent_contract unreadable_file = err unreadable
load_agent_contract bad_yaml_file = err bad_yaml
load_agent_contract (parsed v) = converted (from_mapping v)

-- `AgentRegistry.register`
unfoldable pub register : AgentContract → Registry → Result RegistryError Registry
register c agents =
    if any (λ (a : AgentContract). str_eq a.id c.id) agents
    then err duplicate_id
    else ok (agents ++ c ∷ [])

-- The loop of `from_directory`.
unfoldable pub register_all : List File → Registry → Result RegistryError Registry
register_all [] agents = ok agents
register_all (f ∷ fs) agents = do
  contract ← load_agent_contract f
  agents' ← register contract agents
  register_all fs agents'

-- `AgentRegistry.from_directory`
unfoldable pub from_directory : Directory → Result RegistryError Registry
from_directory missing = err no_directory
from_directory no_dir = err not_directory
from_directory (manifests []) = err no_manifests
from_directory (manifests (f ∷ fs)) = register_all (f ∷ fs) []

abbrev pub or_unknown : Option AgentContract → Result RegistryError AgentContract
or_unknown none = err unknown_id
or_unknown (some a) = ok a

-- `AgentRegistry.get`
unfoldable pub agent : String → Registry → Result RegistryError AgentContract
agent id agents = or_unknown (find? (λ (a : AgentContract). str_eq a.id id) agents)

unfoldable pub insert_by_id : AgentContract → List AgentContract → List AgentContract
insert_by_id c [] = c ∷ []
insert_by_id c (a ∷ as_) = if text_leb c.id a.id then c ∷ a ∷ as_ else a ∷ insert_by_id c as_

unfoldable pub sort_by_id : List AgentContract → List AgentContract
sort_by_id [] = []
sort_by_id (a ∷ as_) = insert_by_id a (sort_by_id as_)

-- `AgentRegistry.list`
unfoldable pub list : Bool → Registry → List AgentContract
list true agents = sort_by_id (keep (λ (a : AgentContract). a.enabled) agents)
list false agents = sort_by_id agents
