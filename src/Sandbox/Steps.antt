-- ===== src/Sandbox/Steps.antt =====
-- src/runtime/sandbox_manager.cpp: what the methods of the sandbox manager do under its lock, in the
-- pieces that return.
use aegis_sandbox.Prelude.{
  ℕ, ◌-◌, String, true, false, not, Option, none, some, [], ◌∷◌, Assoc, lookup, erase, ◌==◌,
  if◌then◌else◌,
}
use aegis_sandbox.Prelude.Int.{ℤ, pos, is_neg, is_pos, minus_one}
use aegis_sandbox.Prelude.Paths.{join, prefix, until_nul}
use aegis_sandbox.Core.{Status, success, err_invalid_sandbox_id, initializing, running}
use aegis_sandbox.Os.{
  Os, Exec, removed_all, closed, killed, waited, opened_socket, connected, sent, received, pure,
  ◌>>=◌, ◌>>◌, get, record_event, ask, call, unless_return, unless_do, when,
}
use aegis_sandbox.Cgroup.Manager.{
  is_success, create_directories, create_cgroup, attach_pid, destroy_cgroup, get_cgroup_id,
  close_fd,
}
use aegis_sandbox.Ebpf.Loader.{set_cgroup_monitored}
use aegis_sandbox.Sandbox.Types.{
  SandboxConfig, ExecutionResult, empty_result, SandboxInstance, SandboxManager, on_cgroups,
}
use aegis_sandbox.Sandbox.Boot.{setup_tap_interface, spawn_firecracker_process, when_loader}

-- `m_sandboxes` is changed to a function of itself.
abbrev pub change_sandboxes :
    (Assoc SandboxInstance → Assoc SandboxInstance) → Exec SandboxManager (Unit {0})
change_sandboxes f m =
    (tt, record m { state = record (m.state) { sandboxes = f m.state.sandboxes } })

-- The instance that `create_sandbox` starts from.
unfoldable pub new_instance : SandboxConfig → String → SandboxInstance
new_instance config sbx_dir = record {
  config = config;
  metadata = record {
    sandbox_id = config.sandbox_id;
    environment = config.environment;
    state = initializing;
    vcpus = config.resource_limits.cpu_cores;
    memory_mb = config.resource_limits.memory_mb;
    vram_mb = config.resource_limits.vram_mb;
    boot_time_ns = 0;
    guest_ip = "";
    tap_device_name = "";
  };
  firecracker_pid = minus_one;
  socket_path = join sbx_dir "firecracker.socket";
  guest_vsock_path = join sbx_dir "guest_agent.socket";
  tap_fd = minus_one;
  is_active = false;
}

-- The instance that it registers.
unfoldable pub running_instance : SandboxInstance → ℕ → SandboxInstance
running_instance instance boot_time_ns = record instance {
  metadata = record (instance.metadata) { boot_time_ns = boot_time_ns; state = running };
  is_active = true;
}

module _ (os : Os) where
  -- Undoes the cgroup and the directory of a creation that fails, and returns the status.
  abbrev pub undo :
      String → String → Status → SandboxInstance → Exec SandboxManager (Status × SandboxInstance)
  undo id sbx_dir status instance = do
    on_cgroups (destroy_cgroup os id)
    record_event (removed_all sbx_dir)
    pure (status, instance)

  -- Steps 1 to 5 of `create_sandbox`, each with the clean-up of its failure.
  unfoldable pub prepare : SandboxConfig → Exec SandboxManager (Status × SandboxInstance)
  prepare config = do
    s ← get
    let id = config.sandbox_id
    let sbx_dir = join s.base_runtime_dir id
    made ← create_directories os sbx_dir
    let instance = new_instance config sbx_dir
    status ← on_cgroups (create_cgroup os id config.resource_limits)
    unless_do (is_success status) (do record_event (removed_all sbx_dir); pure (status, instance))
        do
          tap ← setup_tap_interface os instance
          unless_do (is_success tap.0) (undo id sbx_dir tap.0 tap.1) do
            spawned ← spawn_firecracker_process os tap.1
            unless_do (is_success spawned.0)
                (do close_fd os spawned.1.tap_fd; undo id sbx_dir spawned.0 spawned.1)
                do on_cgroups (attach_pid os id spawned.1.firecracker_pid); pure spawned

  -- `kill` and `waitpid` of a process, if it is one.
  unfoldable pub kill_process : ℤ → Exec SandboxManager (Unit {0})
  kill_process pid = when (is_pos pid) do record_event (killed pid); record_event (waited pid)

  -- Step 3 of `terminate_sandbox`.
  unfoldable pub stop_monitoring : String → Exec SandboxManager (Unit {0})
  stop_monitoring sbx_id m = elim m.state.ebpf_loader [
    | none ↦ (tt, m)
    | some loader ↦
        let cgroup_id = get_cgroup_id m.state.cgroup_manager sbx_id in
        when (not (cgroup_id == 0)) (when_loader os (set_cgroup_monitored os cgroup_id false)) m
  ]

  unfoldable pub terminate : String → Exec SandboxManager Status
  terminate sbx_id m = elim (lookup sbx_id m.state.sandboxes) [
    | none ↦ (err_invalid_sandbox_id, m)
    | some instance ↦
        (do
          kill_process instance.firecracker_pid
          close_fd os instance.tap_fd
          stop_monitoring sbx_id
          on_cgroups (destroy_cgroup os sbx_id)
          record_event (removed_all (join m.state.base_runtime_dir sbx_id))
          change_sandboxes (erase sbx_id)
          pure success)
          m
  ]

  -- The loop of `terminate_all`.
  unfoldable pub terminate_each : Assoc SandboxInstance → Exec SandboxManager (Unit {0})
  terminate_each [] = pure tt
  terminate_each ((id, instance) ∷ rest) = do
    kill_process instance.firecracker_pid
    close_fd os instance.tap_fd
    on_cgroups (destroy_cgroup os id)
    s ← get
    record_event (removed_all (join s.base_runtime_dir id))
    terminate_each rest

  unfoldable pub terminate_every : Exec SandboxManager (Unit {0})
  terminate_every = do s ← get; terminate_each s.sandboxes; change_sandboxes (λ all. [])

  -- What the guest agent answers: nothing if it cannot be reached.
  unfoldable pub ask_agent : String → String → Exec SandboxManager (Option String)
  ask_agent path code_payload = do
    agent_sock ← call os.socket opened_socket
    unless_return (not (is_neg agent_sock)) none do
      let address = prefix 107 path
      rc ← call (λ t. os.connect t agent_sock address) (connected agent_sock address)
      unless_do (not (is_neg rc)) (do record_event (closed agent_sock); pure none)
          do
            bytes_sent ←
                call (λ t. os.write t agent_sock code_payload) (sent agent_sock code_payload)
            answer ← call (λ t. os.read t agent_sock) (λ a. received agent_sock a.0)
            record_event (closed agent_sock)
            pure (if is_pos answer.0 then some (until_nul (prefix 8191 answer.1)) else none)

  unfoldable pub with_answer : Option String → ExecutionResult → ExecutionResult
  with_answer none result = result
  with_answer (some output) result = record result { stdout_output = output; exit_code = pos 0 }

  unfoldable pub run_code : SandboxInstance → String → String → Exec SandboxManager ExecutionResult
  run_code instance sandbox_id code_payload = do
    exec_start ← ask os.now
    answer ← ask_agent instance.guest_vsock_path code_payload
    exec_end ← ask os.now
    pure (record (with_answer answer (empty_result sandbox_id)) {
      execution_time_ns = exec_end - exec_start;
      boot_time_ns = instance.metadata.boot_time_ns;
    })

  unfoldable pub execute : String → String → Exec SandboxManager ExecutionResult
  execute sandbox_id code_payload m = elim (lookup sandbox_id m.state.sandboxes) [
    | none ↦ (invalid, m)
    | some instance ↦
        unless_return instance.is_active invalid (run_code instance sandbox_id code_payload) m
  ]
    where
      invalid : ExecutionResult
      invalid = record (empty_result sandbox_id) {
        exit_code = minus_one;
        stderr_output = "Error: Invalid or inactive sandbox ID.";
      }
