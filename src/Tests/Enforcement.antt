-- ===== src/Tests/Enforcement.antt =====
-- The sandbox manager's dealings with the loader, its answers and its histories at concrete inputs.
use aegis_sandbox.Prelude.{
  ◌≡◌, ◌≢◌, ◌⊎◌, refl, true, none, some, List, [], ◌∷◌, lookup, assign, Any, arith,
}
use aegis_sandbox.Os.{Machine}
use aegis_sandbox.Policy.Engine.{policy_engine, register_policy, strict_python, get_policy}
use aegis_sandbox.Cgroup.Manager.{get_cgroup_id}
use aegis_sandbox.Ebpf.Loader.{EbpfLoader, ebpf_loader}
use aegis_sandbox.Sandbox.Types.{ExecutionResult, SandboxManager}
use aegis_sandbox.Sandbox.Manager.{sandbox_manager, execute_code}
use aegis_sandbox.Sandbox.Execute.{Reported, execute_code_outcome}
use aegis_sandbox.Sandbox.Validity.{IsValid}
use aegis_sandbox.Sandbox.History.{
  Command, creates, runs_code, terminates, terminates_all, IsCreation, run,
  run-sandbox_manager-IsValid,
}
use aegis_sandbox.Tests.Machines.{quiet_os}
use aegis_sandbox.Tests.Sandboxes.{config, busy}

execute_code_outcome_example :
    (r : ExecutionResult) × (n : Machine SandboxManager) × (execute_code quiet_os "agent-1"
        "print(1)" busy
      ≡ some (r, n))
    × Reported quiet_os "agent-1" "print(1)" busy n r
execute_code_outcome_example = execute_code_outcome quiet_os "agent-1" "print(1)" busy refl

abbrev history : List Command
history =
    creates config ∷ runs_code "agent-1" "print(1)" ∷ terminates "agent-1" ∷ terminates_all ∷ []

run-sandbox_manager-IsValid_example :
    ((n : Machine SandboxManager) × (run quiet_os history
          (sandbox_manager quiet_os none none "/var/run/aegis" [])
        ≡ some n)
      × IsValid n.state)
    ⊎ ((run quiet_os history (sandbox_manager quiet_os none none "/var/run/aegis" []) ≡ none)
        × Any IsCreation history)
run-sandbox_manager-IsValid_example =
    run-sandbox_manager-IsValid quiet_os none none "/var/run/aegis" [] history

-- The sandbox with the default policies, and a loader as its constructor leaves it or with an object.
abbrev pub with_loader : EbpfLoader → Machine SandboxManager
with_loader l = record busy {
  state = record (busy.state) { ebpf_loader = some l; policy_engine = some policy_engine };
}

abbrev pub loaded : EbpfLoader
loaded = record ebpf_loader { bpf_obj = some 1; is_loaded = true }

pub placed : get_cgroup_id busy.state.cgroup_manager "agent-1" ≢ 0
unfolding get_cgroup_id lookup
placed e = ground arith

pub known : get_policy policy_engine "strict_python" ≡ some strict_python
unfolding get_policy policy_engine register_policy assign lookup
known = refl
