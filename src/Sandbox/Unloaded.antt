-- ===== src/Sandbox/Unloaded.antt =====
-- `apply_ebpf_policies` with a loader that holds no object.
use aegis_sandbox.Prelude.{
  ℕ, ◌≡◌, ◌≢◌, inl, inr, refl, Option, none, some, List, [], ◌∷◌, arith, Option-cases,
}
use aegis_sandbox.Core.{success}
use aegis_sandbox.Os.{Os, Machine}
use aegis_sandbox.Policy.Engine.{SecurityPolicy, get_policy}
use aegis_sandbox.Cgroup.Manager.{get_cgroup_id}
use aegis_sandbox.Ebpf.Loader.{
  EbpfLoader, get_map_fd, monitored_map_fd, update_map, set_cgroup_monitored, set_syscall_policy,
  set_blocked_ip,
}
use aegis_sandbox.Sandbox.Types.{SandboxInstance, SandboxManager}
use aegis_sandbox.Sandbox.Boot.{block_syscalls, load_policy, apply_ebpf_policies}

module _ (os : Os) where
  block_syscalls_idle :
      (l : EbpfLoader) (nrs : List ℕ) (m : Machine SandboxManager)
      → m.state.ebpf_loader ≡ some l
      → l.bpf_obj ≡ none
      → block_syscalls os nrs m ≡ (tt, m)
  unfolding block_syscalls set_syscall_policy get_map_fd update_map
  block_syscalls_idle l [] m given unloaded = refl
  block_syscalls_idle l (nr ∷ nrs) m given unloaded =
      ground (arith, given, unloaded, block_syscalls_idle l nrs m given unloaded)

  load_policy_idle :
      (l : EbpfLoader) (p : Option SecurityPolicy) (m : Machine SandboxManager)
      → m.state.ebpf_loader ≡ some l
      → l.bpf_obj ≡ none
      → load_policy os p m ≡ (tt, m)
  unfolding load_policy set_blocked_ip get_map_fd update_map
  load_policy_idle l none m given unloaded = refl
  load_policy_idle l (some p) m given unloaded =
      ground (arith, block_syscalls_idle l p.syscall_rule.blocked_syscalls m given unloaded)

  -- With a loader that holds no object, and for a sandbox with a cgroup, `apply_ebpf_policies` returns
  -- success and neither changes nor calls anything.
  apply_ebpf_policies_idle :
      (instance : SandboxInstance) (l : EbpfLoader) (m : Machine SandboxManager)
      → m.state.ebpf_loader ≡ some l
      → l.bpf_obj ≡ none
      → get_cgroup_id m.state.cgroup_manager instance.config.sandbox_id ≢ 0
      → apply_ebpf_policies os instance m ≡ (success, m)
  unfolding apply_ebpf_policies load_policy set_cgroup_monitored monitored_map_fd set_blocked_ip
      get_map_fd update_map
  apply_ebpf_policies_idle instance l m given unloaded placed =
      elim (Option-cases m.state.policy_engine) [
        | inl no_engine ↦ ground arith
        | inr (engine, e) ↦ ground (
          arith,
          e,
          load_policy_idle l (get_policy engine instance.config.security_policy_name) m given
              unloaded,
        )
      ]
