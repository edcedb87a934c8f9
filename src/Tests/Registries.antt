-- ===== src/Tests/Registries.antt =====
-- Threads against the registry at concrete inputs.
use aegis_sandbox.Prelude.{◌≡◌, refl, false, none, some, Option, [], has_key}
use aegis_sandbox.Prelude.Paths.{is_empty, prefix, until_nul, includes}
use aegis_sandbox.Core.{success}
use aegis_sandbox.Os.{Machine}
use aegis_sandbox.Cgroup.Manager.{
  cgroup_manager, create_cgroup, apply_limits, write_sysfs_file, fetch_inode_id, attach_pid,
}
use aegis_sandbox.Sandbox.Types.{SandboxManager}
use aegis_sandbox.Sandbox.Boot.{
  boot, setup_tap_interface, spawn_firecracker_process, await_socket, restore_firecracker_snapshot,
  configure_firecracker_api, send_unix_http_put, apply_ebpf_policies,
}
use aegis_sandbox.Sandbox.Steps.{prepare, new_instance, running_instance}
use aegis_sandbox.Sandbox.Manager.{
  sandbox_manager, set_locked, create_sandbox, start_instance, with_lock,
}
use aegis_sandbox.Sandbox.History.{creates, queries}
use aegis_sandbox.Sandbox.Threads.{
  Answer, created, call, System, Reaches, starting, next, enters, locks, returns,
}
use aegis_sandbox.Sandbox.Registry.{Explains}
use aegis_sandbox.Sandbox.Refinement.{registry_of}
use aegis_sandbox.Sandbox.Linearization.{threads_refine}
use aegis_sandbox.Tests.Sandboxes.{config, empty}
use aegis_sandbox.Tests.Machines.{quiet_os}

abbrev fresh : Machine SandboxManager
fresh = sandbox_manager quiet_os none none "/var/run/aegis" []

abbrev machine_of : Option (Answer × Machine SandboxManager) → Machine SandboxManager
machine_of none = empty
machine_of (some (a, m)) = m

abbrev made : Machine SandboxManager
made = machine_of (call quiet_os (creates config) (set_locked false fresh))

fresh_free : fresh.state.locked ≡ false
unfolding sandbox_manager
fresh_free = refl

made_returns :
    call quiet_os (creates config) (set_locked false fresh) ≡ some (created success, made)
unfolding call sandbox_manager create_sandbox with_lock start_instance prepare create_cgroup has_key
    apply_limits write_sysfs_file fetch_inode_id setup_tap_interface spawn_firecracker_process
    await_socket new_instance attach_pid boot restore_firecracker_snapshot configure_firecracker_api
    send_unix_http_put apply_ebpf_policies running_instance is_empty includes until_nul prefix
    cgroup_manager
made_returns = refl

-- Thread 0 creates a sandbox, and thread 1, which has asked for it before, waits.
abbrev creating : (s : System) × Reaches quiet_os fresh s
creating = (
  _,
  next
      (next
        (next (next starting (enters 1 (queries "agent-1") refl)) (enters 0 (creates config) refl))
        (locks 0 (creates config) refl fresh_free))
      (returns 0 (creates config) (created success) made refl made_returns),
)

threads_refine_example :
    Explains (λ id. none) creating.0.done (registry_of creating.0.machine.state)
threads_refine_example = threads_refine quiet_os none none "/var/run/aegis" [] creating.0 creating.1
