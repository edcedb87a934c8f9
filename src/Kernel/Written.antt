-- ===== src/Kernel/Written.antt =====
-- What the calls of the loader write into the kernel's maps, whichever maps its object declares.
use aegis_sandbox.Prelude.{
  ℕ, ◌≡◌, ◌≢◌, refl, ◌∙◌, String, has_key, true, ◌&&◌, Option, none, some, List, [], ◌∷◌, ◌==◌,
  arith, contains, All, ◌<◌, if◌then◌else◌,
}
use aegis_sandbox.Prelude.Int.{ℤ, pos, is_zero}
use aegis_sandbox.Os.{Os, Trace, Machine, updated_map}
use aegis_sandbox.Ebpf.Loader.{
  EbpfLoader, get_map_fd, update_map, monitored_map_fd, set_cgroup_monitored, set_syscall_policy,
  set_blocked_ip,
}
use aegis_sandbox.Sandbox.Types.{SandboxManager}
use aegis_sandbox.Sandbox.Boot.{when_loader, block_syscalls}
use aegis_sandbox.Sandbox.Frames.{when_loader-state, set_syscall_policy-state}
use aegis_sandbox.Kernel.Maps.{MapDefinition}

-- The value that the latest successful update of a key has written, if there is one.
unfoldable pub written : ℕ → ℕ → Trace → Option ℕ
written fd key [] = none
written fd key (updated_map (ℤ.pos f) k v answer ∷ t) =
    let rest = written fd key t in if f == fd && (k == key && is_zero answer) then some v else rest
written fd key (_ ∷ t) = written fd key t

module _ (os : Os) (fd_of : String → ℕ) (decl : List (String × MapDefinition)) (obj : ℕ)
    (finds : (t : Trace) (name : String)
      → os.bpf_map_fd t obj name ≡ (if has_key name decl then some (pos (fd_of name)) else none))
    (l : EbpfLoader) (loaded : l.bpf_obj ≡ some obj) where
  abbrev cgroups : ℕ
  cgroups = fd_of "aegis_monitored_cgroups"

  abbrev syscalls : ℕ
  syscalls = fd_of "aegis_syscall_policy"

  abbrev ips : ℕ
  ips = fd_of "aegis_blocked_ips"

  block_state :
      (nr : ℕ) (m : Machine SandboxManager)
      → (when_loader os (set_syscall_policy os nr 1) m).1.state ≡ m.state
  block_state nr m =
      when_loader-state os (set_syscall_policy os nr 1) (set_syscall_policy-state os nr 1) m

  -- The updates of the syscalls, and that of an address, leave the other maps.
  block_other :
      (fd n nr : ℕ) (m : Machine SandboxManager)
      → m.state.ebpf_loader ≡ some l
      → syscalls ≢ fd
      → written fd n (when_loader os (set_syscall_policy os nr 1) m).1.trace ≡ written fd n m.trace
  unfolding set_syscall_policy get_map_fd update_map written
  block_other fd n nr m given other =
      ground (arith, given, finds m.trace "aegis_syscall_policy", other)

  pub written-block_other :
      (fd n : ℕ) (nrs : List ℕ) (m : Machine SandboxManager)
      → m.state.ebpf_loader ≡ some l
      → syscalls ≢ fd
      → written fd n (block_syscalls os nrs m).1.trace ≡ written fd n m.trace
  unfolding block_syscalls
  written-block_other fd n [] m given other = refl
  written-block_other fd n (nr ∷ nrs) m given other =
      written-block_other fd n nrs (when_loader os (set_syscall_policy os nr 1) m).1
        (ground (arith, block_state nr m, given)) other
      ∙ block_other fd n nr m given other

  pub written-ip_other :
      (fd n ip : ℕ) (m : Machine SandboxManager)
      → m.state.ebpf_loader ≡ some l
      → ips ≢ fd
      → written fd n (when_loader os (set_blocked_ip os ip true) m).1.trace ≡ written fd n m.trace
  unfolding set_blocked_ip get_map_fd update_map written
  written-ip_other fd n ip m given other =
      ground (arith, given, finds m.trace "aegis_blocked_ips", other)

  -- Monitoring a cgroup leaves the maps of the syscalls and of the addresses.
  pub written-monitor_other :
      (fd n id : ℕ) (m : Machine SandboxManager)
      → m.state.ebpf_loader ≡ some l
      → cgroups ≢ fd
      → fd_of "aegis_monitored_cgroups_proc" ≢ fd
      → written fd n (when_loader os (set_cgroup_monitored os id true) m).1.trace
        ≡ written fd n m.trace
  unfolding set_cgroup_monitored monitored_map_fd get_map_fd update_map written
  written-monitor_other fd n id m given other proc = ground (
    arith,
    given,
    finds m.trace "aegis_monitored_cgroups",
    finds m.trace "aegis_monitored_cgroups_proc",
    other,
    proc,
  )

  written-block :
      (n nr : ℕ) (m : Machine SandboxManager)
      → m.state.ebpf_loader ≡ some l
      → has_key "aegis_syscall_policy" decl ≡ true
      → os.bpf_update m.trace (pos syscalls) nr 1 ≡ pos 0
      → written syscalls n (when_loader os (set_syscall_policy os nr 1) m).1.trace
        ≡ (if nr == n then some 1 else written syscalls n m.trace)
  unfolding set_syscall_policy get_map_fd update_map written
  written-block n nr m given has taken =
      ground (arith, given, has, finds m.trace "aegis_syscall_policy", taken)

  -- The loop writes 1 for each blocked syscall, and nothing else, if the map takes their numbers.
  pub written-block_syscalls :
      ((t : Trace) (nr : ℕ) → nr < 512 → os.bpf_update t (pos syscalls) nr 1 ≡ pos 0)
      → (n : ℕ) (nrs : List ℕ) (m : Machine SandboxManager) → m.state.ebpf_loader ≡ some l
      → has_key "aegis_syscall_policy" decl ≡ true
      → All (λ nr. nr < 512) nrs
      → written syscalls n (block_syscalls os nrs m).1.trace
        ≡ (if contains n nrs then some 1 else written syscalls n m.trace)
  unfolding block_syscalls contains
  written-block_syscalls takes n [] m given has small = refl
  written-block_syscalls takes n (nr ∷ nrs) m given has (low, rest) = ground (
    arith,
    written-block n nr m given has (takes m.trace nr low),
    written-block_syscalls takes n nrs (when_loader os (set_syscall_policy os nr 1) m).1
        (ground (arith, block_state nr m, given)) has rest,
  )

  pub written-ip :
      (n ip : ℕ) (m : Machine SandboxManager)
      → m.state.ebpf_loader ≡ some l
      → has_key "aegis_blocked_ips" decl ≡ true
      → os.bpf_update m.trace (pos ips) ip 1 ≡ pos 0
      → written ips n (when_loader os (set_blocked_ip os ip true) m).1.trace
        ≡ (if ip == n then some 1 else written ips n m.trace)
  unfolding set_blocked_ip get_map_fd update_map written
  written-ip n ip m given has taken =
      ground (arith, given, has, finds m.trace "aegis_blocked_ips", taken)

  pub written-monitor :
      (fd n id : ℕ) (m : Machine SandboxManager)
      → m.state.ebpf_loader ≡ some l
      → has_key "aegis_monitored_cgroups" decl ≡ true
      → os.bpf_update m.trace (pos cgroups) id 1 ≡ pos 0
      → written fd n (when_loader os (set_cgroup_monitored os id true) m).1.trace
        ≡ (if cgroups == fd && id == n then some 1 else written fd n m.trace)
  unfolding set_cgroup_monitored monitored_map_fd get_map_fd update_map written
  written-monitor fd n id m given has taken =
      ground (arith, given, has, finds m.trace "aegis_monitored_cgroups", taken)
