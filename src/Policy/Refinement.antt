-- ===== src/Policy/Refinement.antt =====
-- The policy engine against a specification without maps: a history of calls determines by itself which
-- policies were registered, and the engine answers with the latest of each name.
use aegis_sandbox.Prelude.{
  ℕ, ◌≡◌, refl, ap, inl, inr, ◌∙◌, String, Bool, true, false, Option, none, some, List, [], ◌∷◌,
  str_eq, if◌then◌else◌, Option-cases, lookup,
}
use aegis_sandbox.Core.{Status}
use aegis_sandbox.Policy.Engine.{
  SecurityPolicy, empty_policy, PolicyEngine, register_policy, load_from_json, strict_python,
  register_default_strict_python_policy, policy_engine, get_policy, eval_syscall, eval_syscall_rule,
  eval_network_egress, eval_network_rule,
}
use aegis_sandbox.Policy.Decisions.{get_policy-register_policy}
use aegis_sandbox.Policy.Yaml.{yaml_timeout, yaml_policy, load_from_yaml}

-- A call that may change the engine; a call of `load_from_yaml` with what the file system answers.
pub data Command : Type 0 where
  registers : SecurityPolicy → Command
  loads_json : String → Command
  loads_yaml : Bool → Option String → String → Command

-- The engine after a call: an exception leaves it as it was.
abbrev kept : PolicyEngine → Option (PolicyEngine × Status) → PolicyEngine
kept e none = e
kept e (some (next, status)) = next

unfoldable pub step : Command → PolicyEngine → PolicyEngine
unfolding register_policy load_from_yaml
step (registers p) e = (register_policy e p).0
step (loads_json text) e = (load_from_json e text).0
step (loads_yaml there file yaml_path) e = kept e (load_from_yaml there file e yaml_path)

-- The engine after a history whose latest call comes first.
unfoldable pub run : List Command → PolicyEngine
unfolding step
run [] = policy_engine
run (c ∷ history) = step c (run history)

-- The policy that `load_from_json` registers, whatever its text.
abbrev json_imported : SecurityPolicy
json_imported = record empty_policy { policy_name = "json_imported_policy" }

abbrev with_timeout : String → String → Option ℕ → Option SecurityPolicy
with_timeout yaml_path content none = none
with_timeout yaml_path content (some timeout) = some (yaml_policy yaml_path content timeout)

-- The policy that a call registers, if it registers one: a policy file has to be there, to open and to
-- have a time limit that can be read.
pub registration : Command → Option SecurityPolicy
registration (registers p) = some p
registration (loads_json text) = some json_imported
registration (loads_yaml false file yaml_path) = none
registration (loads_yaml true none yaml_path) = none
registration (loads_yaml true (some content) yaml_path) =
    with_timeout yaml_path content (yaml_timeout empty_policy.max_execution_time_sec content)

-- A policy, if there is one, in front of others.
abbrev newest : Option SecurityPolicy → String → Option SecurityPolicy → Option SecurityPolicy
newest none name older = older
newest (some p) name older = if str_eq p.policy_name name then some p else older

-- The specification: the latest policy of a name that a history has registered, and before all of them
-- the one that the constructor registers.
pub latest : List Command → String → Option SecurityPolicy
unfolding registration
latest [] name = newest (some strict_python) name none
latest (c ∷ history) name = newest (registration c) name (latest history name)

get_policy-step :
    (c : Command) (e : PolicyEngine) (name : String)
    → get_policy (step c e) name ≡ newest (registration c) name (get_policy e name)
unfolding step registration load_from_json load_from_yaml
get_policy-step (registers p) e name = get_policy-register_policy e p name
get_policy-step (loads_json text) e name = get_policy-register_policy e json_imported name
get_policy-step (loads_yaml false file yaml_path) e name = refl
get_policy-step (loads_yaml true none yaml_path) e name = refl
get_policy-step (loads_yaml true (some content) yaml_path) e name =
    elim (Option-cases (yaml_timeout empty_policy.max_execution_time_sec content)) [
      | inl rejected ↦ rw (registration, load_from_yaml, rejected) refl
      | inr (timeout, read) ↦
          rw (registration, load_from_yaml, read)
            (get_policy-register_policy e (yaml_policy yaml_path content timeout) name)
    ]

get_policy-run :
    (history : List Command) (name : String) → get_policy (run history) name ≡ latest history name
unfolding run latest policy_engine register_default_strict_python_policy get_policy lookup
get_policy-run [] name = get_policy-register_policy (record { policies = [] }) strict_python name
get_policy-run (c ∷ history) name =
    get_policy-step c (run history) name
    ∙ ap (newest (registration c) name) (get_policy-run history name)

-- What a policy that need not be there says of a syscall and of a destination.
abbrev pub permits_syscall : Option SecurityPolicy → ℕ → Bool
permits_syscall none nr = false
permits_syscall (some p) nr = eval_syscall_rule p.syscall_rule nr

abbrev pub permits_egress : Option SecurityPolicy → ℕ → Bool
permits_egress none ip = false
permits_egress (some p) ip = eval_network_rule p.network_rule ip

decides_syscall :
    (e : PolicyEngine) (name : String) (nr : ℕ)
    → eval_syscall e name nr ≡ permits_syscall (get_policy e name) nr
unfolding eval_syscall get_policy
decides_syscall e name nr = elim (Option-cases (lookup name e.policies)) [
  | inl missing ↦ rw (eval_syscall, missing) refl
  | inr (p, found) ↦ rw (eval_syscall, found) refl
]

decides_egress :
    (e : PolicyEngine) (name : String) (ip : ℕ)
    → eval_network_egress e name ip ≡ permits_egress (get_policy e name) ip
unfolding eval_network_egress get_policy
decides_egress e name ip = elim (Option-cases (lookup name e.policies)) [
  | inl missing ↦ rw (eval_network_egress, missing) refl
  | inr (p, found) ↦ rw (eval_network_egress, found) refl
]

-- After every history of registrations and of loads that succeed, fail or throw, the engine implements
-- the specification: `get_policy` returns the policy of the name that was registered last, and
-- `eval_syscall` and `eval_network_egress` decide by that policy, or deny if there is none.
pub run_refines_latest :
    (history : List Command) (name : String)
    → (get_policy (run history) name ≡ latest history name)
      × ((nr : ℕ) → eval_syscall (run history) name nr ≡ permits_syscall (latest history name) nr)
      × ((ip : ℕ)
          → eval_network_egress (run history) name ip ≡ permits_egress (latest history name) ip)
run_refines_latest history name =
    let same = get_policy-run history name in
    (
      same,
      λ nr. decides_syscall (run history) name nr ∙ ap (λ o. permits_syscall o nr) same,
      λ ip. decides_egress (run history) name ip ∙ ap (λ o. permits_egress o ip) same,
    )
