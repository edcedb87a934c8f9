-- ===== src/Kernel/Refused.antt =====
-- What the kernel's programs do when the kernel does not take the cgroup of a sandbox into its map.
use aegis_sandbox.Prelude.{
  ℕ, ◌≡◌, ◌≢◌, ◌∙◌, String, true, false, none, some, List, has_key, arith, if◌then◌else◌,
}
use aegis_sandbox.Prelude.Int.{pos, is_zero}
use aegis_sandbox.Core.{success}
use aegis_sandbox.Os.{Os, Trace, Machine}
use aegis_sandbox.Policy.Engine.{SecurityPolicy, PolicyEngine, get_policy, metadata_ip}
use aegis_sandbox.Cgroup.Manager.{get_cgroup_id}
use aegis_sandbox.Ebpf.Loader.{
  EbpfLoader, get_map_fd, monitored_map_fd, update_map, set_cgroup_monitored,
}
use aegis_sandbox.Sandbox.Types.{SandboxInstance, SandboxManager}
use aegis_sandbox.Sandbox.Boot.{when_loader, block_syscalls, load_policy, apply_ebpf_policies}
use aegis_sandbox.Sandbox.Frames.{
  when_loader-state, set_cgroup_monitored-state, block_syscalls-state,
}
use aegis_sandbox.Kernel.Tasks.{Task, KernelMaps, is_nonzero}
use aegis_sandbox.Kernel.Maps.{MapDefinition}
use aegis_sandbox.Kernel.Syscalls.{passed, handle_sys_enter}
use aegis_sandbox.Kernel.Objects.{policies_applied}
use aegis_sandbox.Kernel.Written.{written, written-block_other, written-ip_other}

module _ (os : Os) (fd_of : String → ℕ) (decl : List (String × MapDefinition)) (obj : ℕ)
    (finds : (t : Trace) (name : String)
      → os.bpf_map_fd t obj name ≡ (if has_key name decl then some (pos (fd_of name)) else none))
    (l : EbpfLoader) (loaded : l.bpf_obj ≡ some obj) (instance : SandboxInstance)
    (engine : PolicyEngine) (p : SecurityPolicy) (m : Machine SandboxManager)
    (given : m.state.ebpf_loader ≡ some l) (engine_given : m.state.policy_engine ≡ some engine)
    (registered : get_policy engine instance.config.security_policy_name ≡ some p)
    (placed : get_cgroup_id m.state.cgroup_manager instance.config.sandbox_id ≢ 0)
    (has : has_key "aegis_monitored_cgroups" decl ≡ true)
    (apart : (fd_of "aegis_syscall_policy" ≢ fd_of "aegis_monitored_cgroups")
      × (fd_of "aegis_blocked_ips" ≢ fd_of "aegis_monitored_cgroups"))
    (full : (t : Trace) (key value : ℕ)
      → is_zero (os.bpf_update t (pos (fd_of "aegis_monitored_cgroups")) key value) ≡ false) where
  abbrev cgroups : ℕ
  cgroups = fd_of "aegis_monitored_cgroups"

  abbrev id : ℕ
  id = get_cgroup_id m.state.cgroup_manager instance.config.sandbox_id

  abbrev watching : Machine SandboxManager
  watching = (when_loader os (set_cgroup_monitored os id true) m).1

  watching_given : watching.state.ebpf_loader ≡ some l
  watching_given = ground (
    arith,
    given,
    when_loader-state os (set_cgroup_monitored os id true) (set_cgroup_monitored-state os id true)
        m,
  )

  abbrev looped : Machine SandboxManager
  looped = (block_syscalls os p.syscall_rule.blocked_syscalls watching).1

  abbrev after_apply : Machine SandboxManager
  after_apply = (apply_ebpf_policies os instance m).1

  looped_given : looped.state.ebpf_loader ≡ some l
  looped_given =
      ground
        (arith, watching_given, block_syscalls-state os p.syscall_rule.blocked_syscalls watching)

  watching_written : written cgroups id watching.trace ≡ written cgroups id m.trace
  unfolding written set_cgroup_monitored monitored_map_fd get_map_fd update_map
  watching_written =
      ground (arith, given, has, finds m.trace "aegis_monitored_cgroups", full m.trace id 1)

  apply_written : written cgroups id after_apply.trace ≡ written cgroups id m.trace
  unfolding load_policy
  apply_written = ground (
    arith,
    apart,
    registered,
    policies_applied os fd_of decl obj finds l loaded instance engine m given engine_given placed,
    written-ip_other os fd_of decl obj finds l loaded cgroups id metadata_ip looped looped_given,
    written-block_other os fd_of decl obj finds l loaded cgroups id p.syscall_rule.blocked_syscalls
        watching watching_given,
    watching_written,
  )

  -- If the map of the monitored cgroups takes no element, for one because it is full, and has none for the
  -- sandbox's cgroup: `apply_ebpf_policies` returns success all the same, and a task in the sandbox's
  -- cgroup may do every syscall, also those that the policy blocks, without an event.
  pub refused_update_passes :
      (maps : KernelMaps) (task : Task)
      → written cgroups id m.trace ≡ none
      → (written cgroups id after_apply.trace ≡ none → maps.monitored_cgroups id ≡ none)
      → task.cgroup_id ≡ id
      → ((apply_ebpf_policies os instance m).0 ≡ success)
        × ((nr : ℕ) → handle_sys_enter maps task nr ≡ passed)
  unfolding handle_sys_enter is_nonzero
  refused_update_passes maps task new absent inside =
      let unseen : maps.monitored_cgroups id ≡ none = absent (apply_written ∙ new) in
      (
        ground (
          arith,
          policies_applied os fd_of decl obj finds l loaded instance engine m given engine_given
              placed,
        ),
        λ nr. ground (arith, inside, unseen),
      )
