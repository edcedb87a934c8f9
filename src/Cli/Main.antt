-- ===== src/Cli/Main.antt =====
-- cmd/aegis-cli/main.cpp: the commands, each on a manager of its own. What is printed is a report;
-- signals and exceptions are left out.
use aegis_sandbox.Prelude.{
  ℕ, String, true, ◌||◌, Option, none, some, List, [], ◌∷◌, str_eq, if◌then◌else◌,
}
use aegis_sandbox.Core.{Status, SandboxMetadata}
use aegis_sandbox.Os.{Os, Trace}
use aegis_sandbox.Policy.Engine.{policy_engine}
use aegis_sandbox.Cgroup.Manager.{is_success, destroy_all}
use aegis_sandbox.Ebpf.Loader.{ebpf_loader, detach_all}
use aegis_sandbox.Sandbox.Types.{
  SandboxConfig, default_config, ExecutionResult, on_cgroups, on_loader, Run,
}
use aegis_sandbox.Sandbox.Manager.{
  pure, lift, ◌>>=◌, ◌>>◌, or_do, sandbox_manager, create_sandbox, execute_code, terminate_sandbox,
  terminate_all, get_metadata,
}
use aegis_sandbox.Cli.Options.{Options, default_options, parse_options}

pub data Report : Type 0 where
  usage version_shown unknown_command terminated : Report
  created : Option SandboxMetadata → Report
  create_failed : Status → Report
  executed : ExecutionResult → Report
  terminate_failed : Status → Report
  shown : Option SandboxMetadata → Report

unfoldable pub config_of : Options → SandboxConfig
config_of o = record default_config {
  sandbox_id = o.sandbox_id;
  security_policy_name = o.policy_name;
  resource_limits = record (default_config.resource_limits) {
    cpu_cores = o.cpus;
    memory_mb = o.memory_mb;
  };
  use_snapshot_restore = true;
}

module _ (os : Os) where
  unfoldable pub run_create : Options → Run (ℕ × Report)
  run_create o = do
    status ← create_sandbox os (config_of o)
    or_do (is_success status) (pure (1, create_failed status))
        do meta ← get_metadata o.sandbox_id; pure (0, created meta)

  unfoldable pub run_exec : Options → Run (ℕ × Report)
  run_exec o = do result ← execute_code os o.sandbox_id o.code_payload; pure (0, executed result)

  unfoldable pub run_terminate : Options → Run (ℕ × Report)
  run_terminate o = do
    status ← terminate_sandbox os o.sandbox_id
    or_do (is_success status) (pure (1, terminate_failed status)) (pure (0, terminated))

  unfoldable pub run_status : Options → Run (ℕ × Report)
  run_status o = do meta ← get_metadata o.sandbox_id; pure (0, shown meta)

  unfoldable pub run_command : String → Options → Run (ℕ × Report)
  run_command command o =
      if str_eq command "create"
      then run_create o
      else if str_eq command "exec"
      then run_exec o
      else if str_eq command "terminate"
      then run_terminate o
      else if str_eq command "status"
      then run_status o
      else pure (1, unknown_command)

  -- The loader that the manager shares dies with it: `main` holds the other reference.
  abbrev pub release_loader : Run (Unit {0})
  release_loader = lift λ m. elim m.state.ebpf_loader [
    | none ↦ (tt, m)
    | some l ↦ (tt, (on_loader l (detach_all os) m).1)
  ]

  -- The destructors of the manager, of its cgroup manager and of the loader.
  unfoldable pub close_manager : Run (Unit {0})
  close_manager = do terminate_all os; lift (on_cgroups (destroy_all os)); release_loader

  unfoldable pub session : String → Options → Run (ℕ × Report)
  session command o = do result ← run_command command o; close_manager; pure result

  -- The arguments behind the program's name; `none` is a run that never ends.
  unfoldable pub main : List String → Trace → Option ((ℕ × Report) × Trace)
  main [] t = some ((1, usage), t)
  main (command ∷ args) t =
      if str_eq command "version" || str_eq command "--version" || str_eq command "-v"
      then some ((0, version_shown), t)
      else elim (session command (parse_options args default_options)
          (sandbox_manager os (some ebpf_loader) (some policy_engine) "/var/run/aegis" t)) [
            | none ↦ none
            | some (result, m) ↦ some (result, m.trace)
          ]
