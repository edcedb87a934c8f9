-- ===== src/Tests/Descriptors.antt =====
-- The descriptors of a manager and of a run of the program at concrete inputs.
use aegis_sandbox.Prelude.{ℕ, ◌+◌, ◌≡◌, ◌⊎◌, String, none, some, List, [], ◌∷◌, Any}
use aegis_sandbox.Os.{Trace, Machine}
use aegis_sandbox.Cgroup.Descriptors.{opens, closes, holds}
use aegis_sandbox.Policy.Engine.{policy_engine}
use aegis_sandbox.Sandbox.Types.{SandboxManager}
use aegis_sandbox.Sandbox.Manager.{terminate_all, sandbox_manager}
use aegis_sandbox.Sandbox.History.{Command, creates, runs_code, terminates, IsCreation, run}
use aegis_sandbox.Sandbox.Descriptors.{taps}
use aegis_sandbox.Sandbox.Balance.{history_accounts}
use aegis_sandbox.Cli.Main.{Report, main}
use aegis_sandbox.Cli.Descriptors.{main-closes}
use aegis_sandbox.Tests.Sandboxes.{config}
use aegis_sandbox.Tests.Machines.{quiet_os}

-- A sandbox is created, used and terminated.
abbrev calls : List Command
calls = creates config ∷ runs_code "agent-1" "print(1)" ∷ terminates "agent-1" ∷ []

abbrev fresh : Machine SandboxManager
fresh = sandbox_manager quiet_os none (some policy_engine) "/var/run/aegis" []

history_accounts_example :
    ((u v : Machine SandboxManager) × (run quiet_os calls fresh ≡ some u)
      × (terminate_all quiet_os u ≡ some (tt, v))
      × ((n : ℕ)
          → (opens n u.trace
              ≡ closes n u.trace
                + (holds n u.state.cgroup_manager.cgroups + taps n u.state.sandboxes))
            × (opens n v.trace ≡ closes n v.trace)))
    ⊎ ((run quiet_os calls fresh ≡ none) × Any IsCreation calls)
history_accounts_example =
    history_accounts quiet_os none (some policy_engine) "/var/run/aegis" calls

abbrev create_args : List String
create_args = "create" ∷ "--id" ∷ "sbx-test" ∷ []

main-closes_example :
    ((r : ℕ × Report) × (t : Trace) × (main quiet_os create_args [] ≡ some (r, t))
      × ((n : ℕ) → opens n t ≡ closes n t))
    ⊎ ((main quiet_os create_args [] ≡ none)
        × ((rest : List String) × (create_args ≡ "create" ∷ rest)))
main-closes_example = main-closes quiet_os create_args
