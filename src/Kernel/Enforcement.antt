-- ===== src/Kernel/Enforcement.antt =====
-- How the kernel programs follow the sandbox manager: what `apply_ebpf_policies` writes into the maps
-- of an object is what the programs read there.
use aegis_sandbox.Prelude.{
  ℕ, ◌%◌, ◌^◌, ◌<◌, ◌≡◌, ◌≢◌, ◌⊎◌, ◌∙◌, ◌↔◌, inl, inr, String, has_key, true, none, some, List,
  ◌==◌, arith, contains, All, if◌then◌else◌, Bool-cases, Option-cases,
}
use aegis_sandbox.Prelude.Int.{pos}
use aegis_sandbox.Os.{Os, Trace, Machine}
use aegis_sandbox.Policy.Engine.{SecurityPolicy, PolicyEngine, get_policy, metadata_ip}
use aegis_sandbox.Cgroup.Manager.{get_cgroup_id}
use aegis_sandbox.Ebpf.Loader.{EbpfLoader, set_cgroup_monitored}
use aegis_sandbox.Sandbox.Types.{SandboxInstance, SandboxManager}
use aegis_sandbox.Sandbox.Boot.{when_loader, block_syscalls, load_policy, apply_ebpf_policies}
use aegis_sandbox.Sandbox.Frames.{
  when_loader-state, set_cgroup_monitored-state, block_syscalls-state,
}
use aegis_sandbox.Kernel.Maps.{MapDefinition}
use aegis_sandbox.Kernel.Objects.{policies_applied}
use aegis_sandbox.Kernel.Written.{
  written, written-block_other, written-ip_other, written-monitor_other, written-block_syscalls,
  written-ip, written-monitor,
}
use aegis_sandbox.Kernel.Tasks.{Task, KernelMaps, is_nonzero, is_one_iff, low_half}
use aegis_sandbox.Kernel.Syscalls.{kill_syscall, handle_sys_enter}
use aegis_sandbox.Kernel.Network.{
  SockAddr, af_inet, aegis_cgroup_connect4, aegis_cgroup_connect4_iff,
}

-- How the kernel keeps maps: an element has the value that was written last, and one that was never
-- written is absent (a hash map) or not 1 (an array, which starts with zeros).
pub record SyscallsReflect (cgroups syscalls : ℕ) (t : Trace) (maps : KernelMaps) : Type 0 where
  pub cgroup_found : (k v : ℕ) → written cgroups k t ≡ some v → maps.monitored_cgroups k ≡ some v
  pub syscall_found : (k v : ℕ) → written syscalls k t ≡ some v → maps.syscall_policy k ≡ some v
  pub syscall_initial : (k : ℕ) → written syscalls k t ≡ none → maps.syscall_policy k ≢ some 1

pub record IpsReflect (ips : ℕ) (t : Trace) (maps : KernelMaps) : Type 0 where
  pub ip_found : (k v : ℕ) → written ips k t ≡ some v → maps.blocked_ips k ≡ some v
  pub ip_absent : (k : ℕ) → written ips k t ≡ none → maps.blocked_ips k ≡ none

module _ (os : Os) (fd_of : String → ℕ) (decl : List (String × MapDefinition)) (obj : ℕ)
    (finds : (t : Trace) (name : String)
      → os.bpf_map_fd t obj name ≡ (if has_key name decl then some (pos (fd_of name)) else none))
    (l : EbpfLoader) (loaded : l.bpf_obj ≡ some obj) where
  abbrev cgroups : ℕ
  cgroups = fd_of "aegis_monitored_cgroups"

  abbrev syscalls : ℕ
  syscalls = fd_of "aegis_syscall_policy"

  abbrev ips : ℕ
  ips = fd_of "aegis_blocked_ips"

  module _ (instance : SandboxInstance) (engine : PolicyEngine) (p : SecurityPolicy)
      (m : Machine SandboxManager) (given : m.state.ebpf_loader ≡ some l)
      (engine_given : m.state.policy_engine ≡ some engine)
      (registered : get_policy engine instance.config.security_policy_name ≡ some p)
      (placed : get_cgroup_id m.state.cgroup_manager instance.config.sandbox_id ≢ 0) where
    abbrev id : ℕ
    id = get_cgroup_id m.state.cgroup_manager instance.config.sandbox_id

    abbrev blocked : List ℕ
    blocked = p.syscall_rule.blocked_syscalls

    abbrev after_apply : Machine SandboxManager
    after_apply = (apply_ebpf_policies os instance m).1

    -- The machine once the cgroup is monitored, and after the loop.
    abbrev watching : Machine SandboxManager
    watching = (when_loader os (set_cgroup_monitored os id true) m).1

    watching_given : watching.state.ebpf_loader ≡ some l
    watching_given = ground (
      arith,
      given,
      when_loader-state os (set_cgroup_monitored os id true) (set_cgroup_monitored-state os id true)
          m,
    )

    abbrev looped : Machine SandboxManager
    looped = (block_syscalls os blocked watching).1

    looped_given : looped.state.ebpf_loader ≡ some l
    looped_given = ground (arith, watching_given, block_syscalls-state os blocked watching)

    applied : after_apply ≡ (load_policy os (some p) watching).1
    applied = ground (
      arith,
      registered,
      policies_applied os fd_of decl obj finds l loaded instance engine m given engine_given placed,
    )

    module _ (has_cgroups : has_key "aegis_monitored_cgroups" decl ≡ true)
        (has_syscalls : has_key "aegis_syscall_policy" decl ≡ true)
        (apart : (cgroups ≢ syscalls) × (ips ≢ cgroups) × (ips ≢ syscalls))
        (monitors : os.bpf_update m.trace (pos cgroups) id 1 ≡ pos 0)
        (takes : (t : Trace) (nr : ℕ) → nr < 512 → os.bpf_update t (pos syscalls) nr 1 ≡ pos 0)
        (small : All (λ nr. nr < 512) blocked) where
      cgroup_written : written cgroups id after_apply.trace ≡ some 1
      unfolding load_policy
      cgroup_written = ground (
        arith,
        apart,
        applied,
        written-ip_other os fd_of decl obj finds l loaded cgroups id metadata_ip looped
            looped_given,
        written-block_other os fd_of decl obj finds l loaded cgroups id blocked watching
            watching_given,
        written-monitor os fd_of decl obj finds l loaded cgroups id id m given has_cgroups monitors,
      )

      syscall_written :
          (n : ℕ)
          → written syscalls n after_apply.trace
            ≡ (if contains n blocked then some 1 else written syscalls n m.trace)
      unfolding load_policy
      syscall_written n = ground (
        arith,
        apart,
        applied,
        written-ip_other os fd_of decl obj finds l loaded syscalls n metadata_ip looped
            looped_given,
        written-block_syscalls os fd_of decl obj finds l loaded takes n blocked watching
            watching_given has_syscalls small,
        written-monitor os fd_of decl obj finds l loaded syscalls n id m given has_cgroups monitors,
      )

      module _ (maps : KernelMaps)
          (reflects : SyscallsReflect cgroups syscalls after_apply.trace maps) where
        syscall_element :
            (n : ℕ)
            → (maps.syscall_policy n ≡ some 1)
              ↔ ((contains n blocked ≡ true) ⊎ (written syscalls n m.trace ≡ some 1))
        syscall_element n = elim (Bool-cases (contains n blocked)) [
          | inl listed ↦
              let found : maps.syscall_policy n ≡ some 1 =
                reflects.syscall_found n 1 (ground (arith, syscall_written n)) in
              (λ e. inl listed, λ b. found)
          | inr free ↦
              let kept : written syscalls n after_apply.trace ≡ written syscalls n m.trace =
                ground (arith, syscall_written n) in
              elim (Option-cases (written syscalls n m.trace)) [
                | inl never ↦
                    let initial : maps.syscall_policy n ≢ some 1 =
                      reflects.syscall_initial n (kept ∙ never) in
                    (λ e. absurd (initial e), λ b. ground (arith, b, never))
                | inr (v, before) ↦
                    let found : maps.syscall_policy n ≡ some v =
                      reflects.syscall_found n v (kept ∙ before) in
                    (
                      λ e. inr (ground (arith, e, found, before)),
                      λ b. ground (arith, b, found, before),
                    )
              ]
        ]

        -- For a sandbox with a cgroup and a registered policy, and maps with descriptors of their own that hold
        -- what was written last:
        -- if the held object declares the maps of the cgroups and of the syscalls, the kernel takes the
        -- sandbox's cgroup and the numbers below 512 into them, the policy blocks only such numbers, and
        -- the policies are applied: a task in the sandbox's cgroup is killed for a syscall exactly
        -- when the policy blocks it, or the element of the syscall was set to 1 before, for whichever sandbox.
        -- Being on the list of allowed syscalls or not makes no difference.
        pub handle_sys_enter-apply_ebpf_policies :
            (task : Task) (nr : ℕ)
            → task.cgroup_id ≡ id
            → nr < 2 ^ 32
            → ((handle_sys_enter maps task nr).killed ≡ true) ↔ (
                (contains nr p.syscall_rule.blocked_syscalls ≡ true)
                ⊎ (written syscalls nr m.trace ≡ some 1))
        unfolding handle_sys_enter kill_syscall is_nonzero low_half
        handle_sys_enter-apply_ebpf_policies task nr inside h =
            let e : nr % 2 ^ 32 ≡ nr = omega arith in
            let watched : maps.monitored_cgroups task.cgroup_id ≡ some 1 =
              rw inside (reflects.cgroup_found id 1 cgroup_written) in
            rw e (ground (arith, watched, syscall_element nr, is_one_iff (maps.syscall_policy nr)))

    module _ (has_ips : has_key "aegis_blocked_ips" decl ≡ true)
        (apart : (cgroups ≢ ips) × (syscalls ≢ ips) × (fd_of "aegis_monitored_cgroups_proc" ≢ ips))
        (takes : (t : Trace) → os.bpf_update t (pos ips) metadata_ip 1 ≡ pos 0)
        (no_ips : (k : ℕ) → k ≢ metadata_ip → written ips k m.trace ≡ none) where
      ip_written : (ip : ℕ) → ip ≢ metadata_ip → written ips ip after_apply.trace ≡ none
      unfolding load_policy
      ip_written ip other = ground (
        arith,
        apart,
        applied,
        written-ip os fd_of decl obj finds l loaded ip metadata_ip looped looped_given has_ips
            (takes looped.trace),
        written-block_other os fd_of decl obj finds l loaded ips ip blocked watching watching_given,
        written-monitor_other os fd_of decl obj finds l loaded ips ip id m given,
        no_ips ip other,
        other,
      )

      module _ (maps : KernelMaps) (reflects : IpsReflect ips after_apply.trace maps) where
        ip_element : (ip : ℕ) → maps.blocked_ips ip ≡ some 1 → ip ≡ metadata_ip
        ip_element ip e = elim (Bool-cases (metadata_ip == ip)) [
          | inl same ↦ ground (arith, same)
          | inr other ↦
              let absent : written ips ip after_apply.trace ≡ none =
                ip_written ip (λ x. ground (arith, x, other)) in
              ground (arith, e, reflects.ip_absent ip absent)
        ]

        -- For a sandbox with a cgroup and a registered policy, and maps with descriptors of their own that hold
        -- what was written last:
        -- if the held object declares the map of the addresses, the kernel takes the metadata service into
        -- it, no other address was written to it before, the policies are applied, and `bpf_hltonl` takes 0xA9FEA9FE to network
        -- byte order: an IPv4 connection of any task is rejected exactly when it goes to the metadata service,
        -- whatever addresses the policy blocks and whether or not it blocks all egress.
        pub aegis_cgroup_connect4-apply_ebpf_policies :
            (hltonl : ℕ → ℕ) (task : Task) (ctx : SockAddr)
            → hltonl 2851995134 ≡ metadata_ip
            → ctx.family ≡ af_inet
            → ((aegis_cgroup_connect4 hltonl maps task ctx).verdict ≡ 0)
              ↔ (ctx.user_ip4 ≡ metadata_ip)
        aegis_cgroup_connect4-apply_ebpf_policies hltonl task ctx h inet =
            let decided = (aegis_cgroup_connect4_iff hltonl maps task ctx h).0 in
            (
              λ r. ground (arith, decided.0 r, ip_element ctx.user_ip4),
              λ e. decided.1 (inet, inl e),
            )
