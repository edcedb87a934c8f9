-- ===== src/Sandbox/Frames.antt =====
-- What the steps of a sandbox's life leave as it was.
use aegis_sandbox.Prelude.{
  ℕ, zero, suc, ◌≡◌, refl, ◌∙◌, String, Bool, true, Option, none, some, List, [], ◌∷◌, arith,
  Option-cases, inl, inr,
}
use aegis_sandbox.Prelude.Int.{ℤ}
use aegis_sandbox.Core.{Status}
use aegis_sandbox.Os.{Os, Machine, Exec}
use aegis_sandbox.Policy.Engine.{SecurityPolicy, PolicyEngine, get_policy, metadata_ip}
use aegis_sandbox.Cgroup.Manager.{get_cgroup_id}
use aegis_sandbox.Ebpf.Loader.{
  EbpfLoader, get_map_fd, monitored_map_fd, update_map, set_cgroup_monitored, set_syscall_policy,
  set_blocked_ip,
}
use aegis_sandbox.Sandbox.Types.{SandboxInstance, SandboxManager}
use aegis_sandbox.Sandbox.Boot.{
  send_unix_http_put, setup_tap_interface, await_socket, spawn_firecracker_process,
  configure_firecracker_api, restore_firecracker_snapshot, boot, when_loader, block_syscalls,
  load_policy, apply_ebpf_policies,
}

module _ (os : Os) where
  send_unix_http_put-state :
      (path endpoint payload : String) (m : Machine SandboxManager)
      → (send_unix_http_put os path endpoint payload m).1.state ≡ m.state
  unfolding send_unix_http_put
  send_unix_http_put-state path endpoint payload m = ground arith

  configure_firecracker_api-state :
      (instance : SandboxInstance) (m : Machine SandboxManager)
      → (configure_firecracker_api os instance m).1.state ≡ m.state
  unfolding configure_firecracker_api
  configure_firecracker_api-state instance m = grind (arith, send_unix_http_put-state)

  -- Booting talks to Firecracker, and changes nothing of the manager.
  pub boot-state :
      (instance : SandboxInstance) (m : Machine SandboxManager)
      → (boot os instance m).1.state ≡ m.state
  unfolding boot restore_firecracker_snapshot
  boot-state instance m = grind (arith, configure_firecracker_api-state, send_unix_http_put-state)

  pub setup_tap_interface-state :
      (instance : SandboxInstance) (m : Machine SandboxManager)
      → (setup_tap_interface os instance m).1.state ≡ m.state
  unfolding setup_tap_interface
  setup_tap_interface-state instance m = ground arith

  await_socket-state :
      (i : ℕ) (path : String) (m : Machine SandboxManager)
      → (await_socket os i path m).1.state ≡ m.state
  unfolding await_socket
  await_socket-state zero path m = refl
  await_socket-state (suc i) path m = grind (arith, await_socket-state i path)

  pub spawn_firecracker_process-state :
      (instance : SandboxInstance) (m : Machine SandboxManager)
      → (spawn_firecracker_process os instance m).1.state ≡ m.state
  unfolding spawn_firecracker_process
  spawn_firecracker_process-state instance m = grind (arith, await_socket-state)

  get_map_fd-machine : (name : String) (m : Machine EbpfLoader) → (get_map_fd os name m).1 ≡ m
  unfolding get_map_fd
  get_map_fd-machine name m = ground arith

  update_map-state :
      (fd : ℤ) (key value : ℕ) (m : Machine EbpfLoader)
      → (update_map os fd key value m).1.state ≡ m.state
  unfolding update_map
  update_map-state fd key value m = ground arith

  pub set_syscall_policy-state :
      (nr value : ℕ) (m : Machine EbpfLoader) → (set_syscall_policy os nr value m).1.state ≡ m.state
  unfolding set_syscall_policy
  set_syscall_policy-state nr value m = grind (arith, update_map-state, get_map_fd-machine)

  pub set_blocked_ip-state :
      (ip : ℕ) (value : Bool) (m : Machine EbpfLoader)
      → (set_blocked_ip os ip value m).1.state ≡ m.state
  unfolding set_blocked_ip
  set_blocked_ip-state ip value m = grind (arith, update_map-state, get_map_fd-machine)

  pub set_cgroup_monitored-state :
      (id : ℕ) (value : Bool) (m : Machine EbpfLoader)
      → (set_cgroup_monitored os id value m).1.state ≡ m.state
  unfolding set_cgroup_monitored monitored_map_fd
  set_cgroup_monitored-state id value m = grind (arith, update_map-state, get_map_fd-machine)

  pub when_loader-state :
      (p : Exec EbpfLoader Status)
      → ((m : Machine EbpfLoader) → (p m).1.state ≡ m.state)
      → (m : Machine SandboxManager) → (when_loader os p m).1.state ≡ m.state
  when_loader-state p keeps m = elim (Option-cases m.state.ebpf_loader) [
    | inl e ↦ ground arith
    | inr (l, e) ↦ ground (arith, e, keeps (record { state = l; trace = m.trace }))
  ]

  pub block_syscalls-state :
      (l : List ℕ) (m : Machine SandboxManager) → (block_syscalls os l m).1.state ≡ m.state
  unfolding block_syscalls
  block_syscalls-state [] m = refl
  block_syscalls-state (nr ∷ rest) m =
      block_syscalls-state rest (when_loader os (set_syscall_policy os nr 1) m).1
      ∙ when_loader-state (set_syscall_policy os nr 1) (set_syscall_policy-state nr 1) m

  load_policy-state :
      (p : Option SecurityPolicy) (m : Machine SandboxManager)
      → (load_policy os p m).1.state ≡ m.state
  unfolding load_policy
  load_policy-state none m = refl
  load_policy-state (some p) m = ground (
    arith,
    block_syscalls-state p.syscall_rule.blocked_syscalls m,
    when_loader-state (set_blocked_ip os metadata_ip true) (set_blocked_ip-state metadata_ip true)
        (block_syscalls os p.syscall_rule.blocked_syscalls m).1,
  )

  -- The security policies go into the kernel's maps, and change nothing of the manager.
  pub apply_ebpf_policies-state :
      (instance : SandboxInstance) (m : Machine SandboxManager)
      → (apply_ebpf_policies os instance m).1.state ≡ m.state
  unfolding apply_ebpf_policies
  apply_ebpf_policies-state instance m = elim (Option-cases m.state.ebpf_loader) [
    | inl none_given ↦ ground arith
    | inr (l, e) ↦ elim (Option-cases m.state.policy_engine) [
      | inl none_given ↦ ground arith
      | inr (engine, f) ↦ ground (arith, applied engine)
    ]
  ]
    where
      monitor : Exec EbpfLoader Status
      monitor =
          set_cgroup_monitored os (get_cgroup_id m.state.cgroup_manager instance.config.sandbox_id)
            true

      applied :
          (engine : PolicyEngine)
          → (load_policy os
              (get_policy engine instance.config.security_policy_name)
              (when_loader os monitor m).1).1.state
            ≡ m.state
      applied engine =
          load_policy-state (get_policy engine instance.config.security_policy_name)
            (when_loader os monitor m).1
          ∙ when_loader-state monitor (set_cgroup_monitored-state _ true) m
