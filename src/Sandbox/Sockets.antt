-- ===== src/Sandbox/Sockets.antt =====
-- The descriptors that the steps of a sandbox's life open and close: what is a step's own is closed when it
-- is over, and a TAP descriptor is handed out.
use aegis_sandbox.Prelude.{
  ℕ, zero, suc, ◌+◌, ◌≡◌, String, Bool, true, false, Option, none, some, List, [], ◌∷◌, arith,
  Option-cases, inl, inr,
}
use aegis_sandbox.Core.{Status}
use aegis_sandbox.Os.{Os, Trace, Machine, Exec}
use aegis_sandbox.Policy.Engine.{SecurityPolicy, metadata_ip}
use aegis_sandbox.Cgroup.Manager.{is_success, get_cgroup_id}
use aegis_sandbox.Cgroup.Descriptors.{count, opens_event, closes_event, opens, closes}
use aegis_sandbox.Ebpf.Loader.{
  EbpfLoader, get_map_fd, monitored_map_fd, update_map, set_cgroup_monitored, set_syscall_policy,
  set_blocked_ip,
}
use aegis_sandbox.Sandbox.Types.{SandboxInstance, SandboxManager}
use aegis_sandbox.Sandbox.Boot.{
  send_unix_http_put, setup_tap_interface, await_socket, spawn_firecracker_process,
  configure_firecracker_api, restore_firecracker_snapshot, boot, when_loader, block_syscalls,
  load_policy, apply_ebpf_policies,
}
use aegis_sandbox.Sandbox.Steps.{ask_agent, stop_monitoring}

-- A trace `u` that goes on from `t` has opened the descriptor `n` as often as it has closed it, and `k` times more.
abbrev pub Opens : ℕ → ℕ → Trace → Trace → Type 0
Opens n k t u = opens n u + closes n t ≡ opens n t + closes n u + k

module _ (os : Os) (n : ℕ) where
  send_unix_http_put-Opens :
      (path endpoint payload : String) (m : Machine SandboxManager)
      → Opens n 0 m.trace (send_unix_http_put os path endpoint payload m).1.trace
  unfolding send_unix_http_put opens closes opens_event closes_event
  send_unix_http_put-Opens path endpoint payload m = ground arith

  await_socket-Opens :
      (i : ℕ) (path : String) (m : Machine SandboxManager)
      → Opens n 0 m.trace (await_socket os i path m).1.trace
  unfolding await_socket opens closes opens_event closes_event
  await_socket-Opens zero path m = omega arith
  await_socket-Opens (suc i) path m = grind (arith, await_socket-Opens i path)

  pub spawn_firecracker_process-Opens :
      (instance : SandboxInstance) (m : Machine SandboxManager)
      → Opens n 0 m.trace (spawn_firecracker_process os instance m).1.trace
  unfolding spawn_firecracker_process opens closes opens_event closes_event
  spawn_firecracker_process-Opens instance m = grind (arith, await_socket-Opens)

  configure_firecracker_api-Opens :
      (instance : SandboxInstance) (m : Machine SandboxManager)
      → Opens n 0 m.trace (configure_firecracker_api os instance m).1.trace
  unfolding configure_firecracker_api
  configure_firecracker_api-Opens instance m = grind (arith, send_unix_http_put-Opens)

  pub boot-Opens :
      (instance : SandboxInstance) (m : Machine SandboxManager)
      → Opens n 0 m.trace (boot os instance m).1.trace
  unfolding boot restore_firecracker_snapshot
  boot-Opens instance m = grind (arith, configure_firecracker_api-Opens, send_unix_http_put-Opens)

  -- A TAP interface that is set up has its descriptor in the instance; one that fails leaves none.
  pub setup_tap_interface-Opens :
      (instance : SandboxInstance) (m : Machine SandboxManager)
      → let tap = setup_tap_interface os instance m in
        (is_success tap.0.0 ≡ true → Opens n (count n tap.0.1.tap_fd) m.trace tap.1.trace)
        × (is_success tap.0.0 ≡ false → Opens n 0 m.trace tap.1.trace)
  unfolding setup_tap_interface opens closes opens_event closes_event
  setup_tap_interface-Opens instance m = (λ h. ground arith, λ h. ground arith)

  pub ask_agent-Opens :
      (path code : String) (m : Machine SandboxManager)
      → Opens n 0 m.trace (ask_agent os path code m).1.trace
  unfolding ask_agent opens closes opens_event closes_event
  ask_agent-Opens path code m = ground arith

  set_syscall_policy-Opens :
      (nr value : ℕ) (m : Machine EbpfLoader)
      → Opens n 0 m.trace (set_syscall_policy os nr value m).1.trace
  unfolding set_syscall_policy get_map_fd update_map opens closes opens_event closes_event
  set_syscall_policy-Opens nr value m = ground arith

  set_blocked_ip-Opens :
      (ip : ℕ) (value : Bool) (m : Machine EbpfLoader)
      → Opens n 0 m.trace (set_blocked_ip os ip value m).1.trace
  unfolding set_blocked_ip get_map_fd update_map opens closes opens_event closes_event
  set_blocked_ip-Opens ip value m = ground arith

  set_cgroup_monitored-Opens :
      (id : ℕ) (value : Bool) (m : Machine EbpfLoader)
      → Opens n 0 m.trace (set_cgroup_monitored os id value m).1.trace
  unfolding set_cgroup_monitored monitored_map_fd get_map_fd update_map opens closes opens_event
      closes_event
  set_cgroup_monitored-Opens id value m = ground arith

  when_loader-Opens :
      (p : Exec EbpfLoader Status)
      → ((m : Machine EbpfLoader) → Opens n 0 m.trace (p m).1.trace)
      → (m : Machine SandboxManager) → Opens n 0 m.trace (when_loader os p m).1.trace
  when_loader-Opens p keeps m = elim (Option-cases m.state.ebpf_loader) [
    | inl e ↦ ground arith
    | inr (l, e) ↦ ground (arith, e, keeps (record { state = l; trace = m.trace }))
  ]

  block_syscalls-Opens :
      (l : List ℕ) (m : Machine SandboxManager) → Opens n 0 m.trace (block_syscalls os l m).1.trace
  unfolding block_syscalls
  block_syscalls-Opens [] m = omega arith
  block_syscalls-Opens (nr ∷ rest) m = omega (
    arith,
    block_syscalls-Opens rest (when_loader os (set_syscall_policy os nr 1) m).1,
    when_loader-Opens (set_syscall_policy os nr 1) (set_syscall_policy-Opens nr 1) m,
  )

  load_policy-Opens :
      (p : Option SecurityPolicy) (m : Machine SandboxManager)
      → Opens n 0 m.trace (load_policy os p m).1.trace
  unfolding load_policy
  load_policy-Opens none m = omega arith
  load_policy-Opens (some p) m = ground (
    arith,
    block_syscalls-Opens p.syscall_rule.blocked_syscalls m,
    when_loader-Opens (set_blocked_ip os metadata_ip true) (set_blocked_ip-Opens metadata_ip true)
        (block_syscalls os p.syscall_rule.blocked_syscalls m).1,
  )

  pub apply_ebpf_policies-Opens :
      (instance : SandboxInstance) (m : Machine SandboxManager)
      → Opens n 0 m.trace (apply_ebpf_policies os instance m).1.trace
  unfolding apply_ebpf_policies
  apply_ebpf_policies-Opens instance m = grind (
    arith,
    load_policy-Opens,
    when_loader-Opens
        (set_cgroup_monitored os (get_cgroup_id m.state.cgroup_manager instance.config.sandbox_id)
          true)
        (set_cgroup_monitored-Opens
          (get_cgroup_id m.state.cgroup_manager instance.config.sandbox_id) true)
        m,
  )

  pub stop_monitoring-Opens :
      (id : String) (m : Machine SandboxManager)
      → Opens n 0 m.trace (stop_monitoring os id m).1.trace
  unfolding stop_monitoring
  stop_monitoring-Opens id m = ground (
    arith,
    when_loader-Opens (set_cgroup_monitored os (get_cgroup_id m.state.cgroup_manager id) false)
        (set_cgroup_monitored-Opens (get_cgroup_id m.state.cgroup_manager id) false) m,
  )
