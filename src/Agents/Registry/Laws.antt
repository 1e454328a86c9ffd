-- ===== src/Agents/Registry/Laws.antt =====
-- What a registry that was read holds.
use personal_ai_brain.Prelude.{
  ◌+◌, String, ◌≡◌, refl, sym, ap, subst, ◌∙◌, inl, inr, false, Bool-cases, Option, none, some,
  List, [], ◌∷◌, ◌++◌, str_eq, str_eq_refl, any, find?, length, All, Result, ok, err, arith,
}
use personal_ai_brain.Prelude.Values.{◌>>=◌, bind_ok}
use personal_ai_brain.Agents.{ContractError, AgentContract, from_mapping}
use personal_ai_brain.Agents.Validity.{IsContract, from_mapping-IsContract}
use personal_ai_brain.Agents.Registry.{
  File, parsed, manifests, Registry, converted, load_agent_contract, register, register_all,
  from_directory, agent,
}

-- A file's contract is valid, and the registry answers its id with it.
pub record IsRegistered (agents : Registry) (f : File) : Type 0 where
  pub contract : AgentContract
  pub loaded : load_agent_contract f ≡ ok contract
  pub found : agent contract.id agents ≡ ok contract
  pub valid : IsContract contract

lookup : String → Registry → Option AgentContract
lookup id agents = find? (λ (a : AgentContract). str_eq a.id id) agents

any-none :
    (id : String) (agents : Registry)
    → any (λ (a : AgentContract). str_eq a.id id) agents ≡ false
    → lookup id agents ≡ none
unfolding lookup
any-none id [] h = refl
any-none id (a ∷ as_) h = ground (arith, any-none id as_)

lookup-append_there :
    (id : String) (agents : Registry) (c a : AgentContract)
    → lookup id agents ≡ some a
    → lookup id (agents ++ c ∷ []) ≡ some a
unfolding lookup
lookup-append_there id [] c a h = absurd (ground arith)
lookup-append_there id (x ∷ xs) c a h = ground (arith, lookup-append_there id xs c a)

lookup-append_new :
    (agents : Registry) (c : AgentContract)
    → lookup c.id agents ≡ none
    → lookup c.id (agents ++ c ∷ []) ≡ some c
unfolding lookup
lookup-append_new [] c h = rw (str_eq_refl c.id) refl
lookup-append_new (x ∷ xs) c h = ground (arith, lookup-append_new xs c)

length-append :
    (agents : Registry) (c : AgentContract) → length (agents ++ c ∷ []) ≡ length agents + 1
length-append [] c = refl
length-append (x ∷ xs) c = ground (arith, length-append xs c)

register_ok :
    (c : AgentContract) (agents agents' : Registry)
    → register c agents ≡ ok agents'
    → (lookup c.id agents ≡ none) × (agents' ≡ agents ++ c ∷ [])
unfolding register
register_ok c agents agents' h =
    elim (Bool-cases (any (λ (a : AgentContract). str_eq a.id c.id) agents)) [
      | inl e ↦ absurd (ground arith)
      | inr e ↦ (any-none c.id agents e, ground arith)
    ]

converted_ok :
    (r : Result ContractError AgentContract) (c : AgentContract) → converted r ≡ ok c → r ≡ ok c
unfolding converted
converted_ok (ok x) c h = ground arith
converted_ok (err e) c h = absurd (ground arith)

load_ok : (f : File) (c : AgentContract) → load_agent_contract f ≡ ok c → IsContract c
unfolding load_agent_contract
load_ok (parsed v) c h = from_mapping-IsContract v c (converted_ok (from_mapping v) c h)
load_ok f c h = absurd (ground arith)

agent_found :
    (id : String) (agents : Registry) (c : AgentContract)
    → lookup id agents ≡ some c
    → agent id agents ≡ ok c
unfolding agent lookup
agent_found id agents c h = rw h refl

-- The registry keeps what it answers, and answers each file's id.
register_all_ok :
    (fs : List File) (agents result : Registry)
    → register_all fs agents ≡ ok result
    → ((id : String) (a : AgentContract) → lookup id agents ≡ some a → lookup id result ≡ some a)
      × All (IsRegistered result) fs
      × (length result ≡ length agents + length fs)
unfolding register_all
register_all_ok [] agents result h =
    let same : agents ≡ result = ground arith in
    (
      λ id a k. subst (λ v. lookup id v ≡ some a) same k,
      tt,
      ap (λ (v : Registry). length v) (sym same) ∙ ground arith,
    )
register_all_ok (f ∷ fs) agents result h =
    let loaded =
      bind_ok (load_agent_contract f) (λ c. register c agents >>= λ more. register_all fs more)
        result h in
    let added = bind_ok (register loaded.0 agents) (λ more. register_all fs more) result loaded.2 in
    let new = register_ok loaded.0 agents added.0 added.1 in
    let rest = register_all_ok fs added.0 result added.2 in
    let grown : length added.0 ≡ length agents + 1 =
      ap (λ (v : Registry). length v) new.1 ∙ length-append agents loaded.0 in
    (
      λ id a k. rest.0 id a (rw (new.1) (lookup-append_there id agents loaded.0 a k)),
      (
        record {
          contract = loaded.0;
          loaded = loaded.1;
          found =
              agent_found loaded.0.id result loaded.0 (
                rest.0 loaded.0.id loaded.0 (rw (new.1) (lookup-append_new agents loaded.0 new.0)));
          valid = load_ok f loaded.0 loaded.1;
        },
        rest.1,
      ),
      ground (arith, rest.2),
    )

-- A registry that is read from a directory has one contract for each manifest: each was loaded and
-- is valid, and `get` answers its id with it.
pub from_directory-IsRegistered :
    (fs : List File) (agents : Registry)
    → from_directory (manifests fs) ≡ ok agents
    → All (IsRegistered agents) fs × (length agents ≡ length fs)
unfolding from_directory
from_directory-IsRegistered [] agents h = absurd (ground arith)
from_directory-IsRegistered (f ∷ fs) agents h =
    let all = register_all_ok (f ∷ fs) [] agents h in let one_each = all.2 in (all.1, ground arith)
