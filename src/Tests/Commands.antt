-- ===== src/Tests/Commands.antt =====
-- The command line at concrete inputs.
use aegis_sandbox.Prelude.{◌≡◌, refl, String, some, none, true, ◌⊎◌, Any, List, [], ◌∷◌}
use aegis_sandbox.Prelude.Int.{minus_one}
use aegis_sandbox.Core.{err_invalid_sandbox_id}
use aegis_sandbox.Os.{Trace}
use aegis_sandbox.Sandbox.Types.{ExecutionResult}
use aegis_sandbox.Cli.Numbers.{atoi, to_uint32}
use aegis_sandbox.Cli.Options.{default_options, set_option, parse_options}
use aegis_sandbox.Cli.Main.{executed, terminate_failed, shown, main}
use aegis_sandbox.Cli.Sessions.{commands_find_nothing}
use aegis_sandbox.Prelude.{lookup}
use aegis_sandbox.Os.{Machine}
use aegis_sandbox.Sandbox.Types.{SandboxManager}
use aegis_sandbox.Sandbox.Manager.{set_locked, sandbox_manager}
use aegis_sandbox.Sandbox.History.{Command, creates, terminates, IsCreation, run}
use aegis_sandbox.Cli.Signals.{signal_handler, signal_handler_outcome}
use aegis_sandbox.Tests.Sandboxes.{config}
use aegis_sandbox.Tests.Machines.{quiet_os}

abbrev args : List String
args = "--id" ∷ "sbx-test" ∷ "--cpus" ∷ "2" ∷ "--code" ∷ []

-- An option without a value is passed over.
parse_options-args :
    parse_options args default_options
    ≡ record default_options { sandbox_id = "sbx-test"; cpus = 2 }
unfolding parse_options set_option atoi to_uint32
parse_options-args = refl

commands_find_nothing_example :
    ((r : ExecutionResult) × (u : Trace) × (main quiet_os ("exec" ∷ args) []
        ≡ some ((0, executed r), u))
      × (r.exit_code ≡ minus_one)
      × (r.stderr_output ≡ "Error: Invalid or inactive sandbox ID."))
    × ((u : Trace) × (main quiet_os ("terminate" ∷ args) []
          ≡ some ((1, terminate_failed err_invalid_sandbox_id), u)))
    × ((u : Trace) × (main quiet_os ("status" ∷ args) [] ≡ some ((0, shown none), u)))
commands_find_nothing_example = commands_find_nothing quiet_os [] args

abbrev history : List Command
history = creates config ∷ terminates "agent-1" ∷ creates config ∷ []

signal_handler_outcome_example :
    ((m : Machine SandboxManager) × (run quiet_os history
          (sandbox_manager quiet_os none none "/var/run/aegis" [])
        ≡ some m)
      × (signal_handler quiet_os true 2 (set_locked true m) ≡ none)
      × (n : Machine SandboxManager) × (signal_handler quiet_os true 2 m ≡ some (2, n))
      × (n.state.sandboxes ≡ [])
      × ((id : String) → lookup id n.state.cgroup_manager.cgroups ≡ none))
    ⊎ ((run quiet_os history (sandbox_manager quiet_os none none "/var/run/aegis" []) ≡ none)
        × Any IsCreation history)
signal_handler_outcome_example =
    signal_handler_outcome quiet_os none none "/var/run/aegis" [] history 2
