-- ===== src/Kernel/Objects.antt =====
-- What `apply_ebpf_policies` comes to on an object that declares some maps and not others.
use aegis_sandbox.Prelude.{
  ℕ, ◌≡◌, ◌≢◌, inl, inr, refl, String, true, Option, none, some, List, [], ◌∷◌, ◌++◌, arith,
  has_key, if◌then◌else◌, Bool-cases, Option-cases, map,
}
use aegis_sandbox.Prelude.Int.{ℤ, pos}
use aegis_sandbox.Core.{success}
use aegis_sandbox.Os.{Os, Trace, Machine, updated_map}
use aegis_sandbox.Policy.Engine.{SecurityPolicy, PolicyEngine, get_policy, metadata_ip}
use aegis_sandbox.Cgroup.Manager.{get_cgroup_id}
use aegis_sandbox.Ebpf.Loader.{
  EbpfLoader, get_map_fd, monitored_map_fd, update_map, set_cgroup_monitored, set_syscall_policy,
  set_blocked_ip,
}
use aegis_sandbox.Sandbox.Types.{SandboxInstance, SandboxManager}
use aegis_sandbox.Sandbox.Boot.{when_loader, block_syscalls, load_policy, apply_ebpf_policies}
use aegis_sandbox.Sandbox.Frames.{
  when_loader-state, set_cgroup_monitored-state, set_syscall_policy-state, block_syscalls-state,
}
use aegis_sandbox.Kernel.Maps.{MapDefinition}

-- The updates of maps that a trace asks for, the newest first: descriptor, key and value.
unfoldable pub updates : Trace → List (ℤ × ℕ × ℕ)
updates [] = []
updates (updated_map fd key value answer ∷ t) = (fd, key, value) ∷ updates t
updates (_ ∷ t) = updates t

-- The elements that a sandbox asks for, each by the name of its map: the oldest first.
unfoldable pub requests :
    List (String × MapDefinition) → Option SecurityPolicy → ℕ → List (String × ℕ)
requests decl policy cgroup_id =
    (
      if has_key "aegis_monitored_cgroups" decl
          then "aegis_monitored_cgroups"
          else "aegis_monitored_cgroups_proc",
      cgroup_id,
    )
    ∷ elim policy [
      | none ↦ []
      | some p ↦
          map (λ nr. ("aegis_syscall_policy", nr)) p.syscall_rule.blocked_syscalls
          ++ (if p.network_rule.block_cloud_metadata
              then ("aegis_blocked_ips", metadata_ip) ∷ []
              else [])
    ]

-- Those of the requests whose map the object declares, each with the value 1, before the updates `u`.
unfoldable pub granted :
    (String → ℕ)
    → List (String × MapDefinition)
    → List (String × ℕ)
    → List (ℤ × ℕ × ℕ)
    → List (ℤ × ℕ × ℕ)
granted fd_of decl [] u = u
granted fd_of decl ((name, key) ∷ rest) u =
    granted fd_of decl rest (if has_key name decl then (pos (fd_of name), key, 1) ∷ u else u)

module _ (os : Os) (fd_of : String → ℕ) (decl : List (String × MapDefinition)) (obj : ℕ)
    (finds : (t : Trace) (name : String)
      → os.bpf_map_fd t obj name ≡ (if has_key name decl then some (pos (fd_of name)) else none))
    (l : EbpfLoader) (loaded : l.bpf_obj ≡ some obj) where
  block_updates :
      (nr : ℕ) (m : Machine SandboxManager)
      → m.state.ebpf_loader ≡ some l
      → updates (when_loader os (set_syscall_policy os nr 1) m).1.trace
        ≡ granted fd_of decl (("aegis_syscall_policy", nr) ∷ []) (updates m.trace)
  unfolding set_syscall_policy get_map_fd update_map updates granted
  block_updates nr m given = ground (arith, given, finds m.trace "aegis_syscall_policy")

  ip_updates :
      (ip : ℕ) (m : Machine SandboxManager)
      → m.state.ebpf_loader ≡ some l
      → updates (when_loader os (set_blocked_ip os ip true) m).1.trace
        ≡ granted fd_of decl (("aegis_blocked_ips", ip) ∷ []) (updates m.trace)
  unfolding set_blocked_ip get_map_fd update_map updates granted
  ip_updates ip m given = ground (arith, given, finds m.trace "aegis_blocked_ips")

  monitor_updates :
      (id : ℕ) (m : Machine SandboxManager)
      → m.state.ebpf_loader ≡ some l
      → updates (when_loader os (set_cgroup_monitored os id true) m).1.trace
        ≡ granted fd_of decl (requests decl none id) (updates m.trace)
  unfolding set_cgroup_monitored monitored_map_fd get_map_fd update_map updates granted requests
  monitor_updates id m given = ground (
    arith,
    given,
    finds m.trace "aegis_monitored_cgroups",
    finds m.trace "aegis_monitored_cgroups_proc",
  )

  block_syscalls-updates :
      (nrs : List ℕ) (rest : List (String × ℕ)) (m : Machine SandboxManager)
      → m.state.ebpf_loader ≡ some l
      → granted fd_of decl (map (λ nr. ("aegis_syscall_policy", nr)) nrs ++ rest) (updates m.trace)
        ≡ granted fd_of decl rest (updates (block_syscalls os nrs m).1.trace)
  unfolding block_syscalls granted
  block_syscalls-updates [] rest m given = refl
  block_syscalls-updates (nr ∷ nrs) rest m given =
      let n : Machine SandboxManager = (when_loader os (set_syscall_policy os nr 1) m).1 in
      let same : n.state ≡ m.state =
        when_loader-state os (set_syscall_policy os nr 1) (set_syscall_policy-state os nr 1) m in
      ground (
        arith,
        block_updates nr m given,
        block_syscalls-updates nrs rest n (ground (arith, same, given)),
      )

  load_policy-updates :
      (p : SecurityPolicy) (m : Machine SandboxManager)
      → m.state.ebpf_loader ≡ some l
      → updates (load_policy os (some p) m).1.trace
        ≡ granted fd_of decl
            (map (λ nr. ("aegis_syscall_policy", nr)) p.syscall_rule.blocked_syscalls
              ++ (if p.network_rule.block_cloud_metadata
                  then ("aegis_blocked_ips", metadata_ip) ∷ []
                  else []))
            (updates m.trace)
  unfolding load_policy granted
  load_policy-updates p m given =
      let nrs : List ℕ = p.syscall_rule.blocked_syscalls in
      let n : Machine SandboxManager = (block_syscalls os nrs m).1 in
      elim (Bool-cases p.network_rule.block_cloud_metadata) [
        | inl blocks ↦ ground (
          arith,
          blocks,
          ip_updates metadata_ip n (ground (arith, block_syscalls-state os nrs m, given)),
          block_syscalls-updates nrs (("aegis_blocked_ips", metadata_ip) ∷ []) m given,
        )
        | inr free ↦ ground (arith, free, block_syscalls-updates nrs [] m given)
      ]

  pub policies_applied :
      (instance : SandboxInstance) (engine : PolicyEngine) (m : Machine SandboxManager)
      → m.state.ebpf_loader ≡ some l
      → m.state.policy_engine ≡ some engine
      → get_cgroup_id m.state.cgroup_manager instance.config.sandbox_id ≢ 0
      → let id = get_cgroup_id m.state.cgroup_manager instance.config.sandbox_id in
        let n : Machine SandboxManager = (when_loader os (set_cgroup_monitored os id true) m).1 in
        apply_ebpf_policies os instance m
        ≡ (success, (load_policy os (get_policy engine instance.config.security_policy_name) n).1)
  unfolding apply_ebpf_policies
  policies_applied instance engine m given engine_given placed =
      ground (arith, given, engine_given, placed)

  -- If libbpf finds exactly the maps that the held object declares, whichever these are, and the
  -- sandbox has a cgroup: `apply_ebpf_policies` returns success, and it has asked
  -- the kernel to update, in this order and with the value 1, those of the elements for the cgroup, for each blocked syscall of the
  -- policy, and for the metadata service, whose map that object declares. The others
  -- are passed over. Whether the kernel takes an update is left open.
  pub apply_ebpf_policies-updates :
      (instance : SandboxInstance) (engine : PolicyEngine) (m : Machine SandboxManager)
      → m.state.ebpf_loader ≡ some l
      → m.state.policy_engine ≡ some engine
      → get_cgroup_id m.state.cgroup_manager instance.config.sandbox_id ≢ 0
      → let r = apply_ebpf_policies os instance m in
        (r.0 ≡ success)
        × (updates r.1.trace
            ≡ granted fd_of decl
                (requests decl
                  (get_policy engine instance.config.security_policy_name)
                  (get_cgroup_id m.state.cgroup_manager instance.config.sandbox_id))
                (updates m.trace))
  unfolding load_policy requests granted
  apply_ebpf_policies-updates instance engine m given engine_given placed =
      let id : ℕ = get_cgroup_id m.state.cgroup_manager instance.config.sandbox_id in
      let n : Machine SandboxManager = (when_loader os (set_cgroup_monitored os id true) m).1 in
      let same : n.state ≡ m.state =
        when_loader-state os (set_cgroup_monitored os id true)
          (set_cgroup_monitored-state os id true) m in
      let whole = policies_applied instance engine m given engine_given placed in
      elim (Option-cases (get_policy engine instance.config.security_policy_name)) [
        | inl unknown ↦ ground (arith, whole, unknown, monitor_updates id m given)
        | inr (p, known) ↦ ground (
          arith,
          whole,
          known,
          monitor_updates id m given,
          load_policy-updates p n (ground (arith, same, given)),
        )
      ]
