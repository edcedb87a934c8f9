-- ===== src/Tests/Yaml.antt =====
-- `load_from_yaml` at concrete texts.
use aegis_sandbox.Prelude.{
  ℕ, ◌<◌, ◌^◌, ◌≡◌, ◌↔◌, ◌⊎◌, refl, String, true, false, none, some, List, [], ◌∷◌, lookup,
  contains, insert, str_eq, if◌then◌else◌, arith,
}
use aegis_sandbox.Prelude.Paths.{size}
use aegis_sandbox.Core.{Status, success, err_policy_violation}
use aegis_sandbox.Policy.Syscalls.{resolve_syscall_name, syscall_name_map}
use aegis_sandbox.Policy.Engine.{
  PolicyEngine, SecurityPolicy, empty_policy, policy_engine, eval_syscall, get_policy, insert_found,
  strict_python, eval_network_egress,
}
use aegis_sandbox.Policy.Regex.{accepts, search}
use aegis_sandbox.Policy.Reads.{Reads}
use aegis_sandbox.Policy.Search.{EndsIn, search_decides}
use aegis_sandbox.Policy.Yaml.{
  name_regex, tokens, yaml_timeout, yaml_syscalls, yaml_name, load_from_yaml,
}
use aegis_sandbox.Policy.Tokens.{words, tokens_lem}
use aegis_sandbox.Policy.Refinement.{
  Command, registers, loads_json, loads_yaml, run, latest, permits_syscall, permits_egress,
  run_refines_latest,
}
use aegis_sandbox.Policy.Permissions.{Lists, load_from_yaml_permits}
use aegis_sandbox.Policy.Loading.{load_from_yaml_outcome}

abbrev flow : String
flow =
    "policy_name: \"web\"\nmax_execution_time_sec: 4294967301\nblock_all_network_egress : true\nallowed_sys_calls: [\"read\", write,\n \"openat\" ]\nblocked_sys_calls: [ bpf ]\n"

flow_name : yaml_name "/etc/p.yaml" flow ≡ "web"
unfolding yaml_name
flow_name = refl

flow_timeout : yaml_timeout empty_policy.max_execution_time_sec flow ≡ some 5
unfolding yaml_timeout
flow_timeout = refl

flow_allowed : yaml_syscalls "allowed_sys_calls" flow ≡ 257 ∷ 1 ∷ 0 ∷ []
unfolding yaml_syscalls insert_found resolve_syscall_name syscall_name_map lookup insert contains
flow_allowed = refl

name_found :
    ((g r : String)
      → search name_regex flow ≡ some (g, r)
      → (u : String) × EndsIn u flow × Reads name_regex u g r)
    × ((search name_regex flow ≡ none)
        ↔ ((u g r : String) → EndsIn u flow → ¬ Reads name_regex u g r))
name_found = search_decides name_regex flow

abbrev names : String
names = "\"read\", write,\n openat "

names-words : words names ≡ "read" ∷ "write" ∷ "openat" ∷ []
unfolding accepts
names-words = refl

tokens_lem_example : tokens 40 names ≡ words names
unfolding size
tokens_lem_example = tokens_lem 40 names (omega arith)

-- A list that is written line by line, as those of the policy files.
abbrev lines : String
lines =
    "policy_name: \"strict_python\"\nallowed_sys_calls:\n  - \"read\"\nmax_execution_time_sec: 15\n"

lines_timeout : yaml_timeout empty_policy.max_execution_time_sec lines ≡ some 15
unfolding yaml_timeout
lines_timeout = refl

load_from_yaml_outcome_example :
    ((load_from_yaml true (some flow) policy_engine "/etc/p.yaml"
        ≡ some (policy_engine, err_policy_violation))
      × ((true ≡ false) ⊎ (some flow ≡ none)))
    ⊎ ((content : String) × (true ≡ true)
        × (some flow ≡ some content)
        × (((load_from_yaml true (some flow) policy_engine "/etc/p.yaml" ≡ none)
              × (yaml_timeout empty_policy.max_execution_time_sec content ≡ none))
            ⊎ ((next : PolicyEngine) × (p : SecurityPolicy) × (load_from_yaml true
                    (some flow)
                    policy_engine
                    "/etc/p.yaml"
                  ≡ some (next, success))
                × (p.policy_name ≡ yaml_name "/etc/p.yaml" content)
                × (p.max_execution_time_sec < 2 ^ 32)
                × ((name : String)
                    → get_policy next name ≡ (
                        if str_eq (yaml_name "/etc/p.yaml" content) name
                        then some p
                        else get_policy policy_engine name)))))
load_from_yaml_outcome_example = load_from_yaml_outcome true (some flow) policy_engine "/etc/p.yaml"

abbrev calls : List Command
calls = loads_yaml true (some lines) "/etc/p.yaml" ∷ loads_json "{}" ∷ registers strict_python ∷ []

run_refines_latest_example :
    (get_policy (run calls) "strict_python" ≡ latest calls "strict_python")
    × ((nr : ℕ)
        → eval_syscall (run calls) "strict_python" nr
          ≡ permits_syscall (latest calls "strict_python") nr)
    × ((ip : ℕ)
        → eval_network_egress (run calls) "strict_python" ip
          ≡ permits_egress (latest calls "strict_python") ip)
run_refines_latest_example = run_refines_latest calls "strict_python"

load_from_yaml_permits_example :
    (r : PolicyEngine × Status) × (load_from_yaml true (some flow) policy_engine "/etc/p.yaml"
      ≡ some r)
    × (r.1 ≡ success)
    × ((nr : ℕ)
        → (eval_syscall r.0 (yaml_name "/etc/p.yaml" flow) nr ≡ true)
          ↔ (Lists "allowed_sys_calls" flow nr × ¬ Lists "blocked_sys_calls" flow nr))
load_from_yaml_permits_example =
    load_from_yaml_permits policy_engine "/etc/p.yaml" flow 5 flow_timeout
