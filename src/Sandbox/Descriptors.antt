-- ===== src/Sandbox/Descriptors.antt =====
-- The descriptors of a sandbox manager: directories of cgroups, TAP devices and sockets.
use aegis_sandbox.Prelude.{
  ℕ, ◌+◌, ◌≡◌, refl, ap, ◌∙◌, String, none, some, [], ◌∷◌, arith, Option-cases, inl, inr,
  Bool-cases, Assoc, lookup, assign, erase, str_eq,
}
use aegis_sandbox.Prelude.Int.{ℤ}
use aegis_sandbox.Prelude.Paths.{join}
use aegis_sandbox.Os.{Os, Machine, removed_all}
use aegis_sandbox.Cgroup.Manager.{CgroupManager, destroy_cgroup, close_fd}
use aegis_sandbox.Cgroup.Descriptors.{
  count, opens_event, closes_event, opens, closes, IsBalanced, destroys-IsBalanced,
}
use aegis_sandbox.Sandbox.Types.{SandboxInstance, SandboxManager, on_cgroups}
use aegis_sandbox.Sandbox.Steps.{kill_process, stop_monitoring, terminate, terminate_each}
use aegis_sandbox.Sandbox.Terminate.{stop_monitoring-state}
use aegis_sandbox.Sandbox.Sockets.{Opens, stop_monitoring-Opens}

-- How many sandboxes hold a descriptor for their TAP devices.
unfoldable pub taps : ℕ → Assoc SandboxInstance → ℕ
taps n [] = 0
taps n ((k, i) ∷ rest) = count n i.tap_fd + taps n rest

abbrev pub cgroups_of : Machine SandboxManager → Machine CgroupManager
cgroups_of m = record { state = m.state.cgroup_manager; trace = m.trace }

-- Each time that the descriptor was opened it has been closed, or a cgroup holds it, or one of `k` others.
abbrev pub Held : ℕ → ℕ → Machine SandboxManager → Type 0
Held n k m = IsBalanced n k (cgroups_of m)

-- The others are the sandboxes.
abbrev pub IsAccounted : ℕ → Machine SandboxManager → Type 0
IsAccounted n m = Held n (taps n m.state.sandboxes) m

pub taps-assign :
    (n : ℕ) (k : String) (i : SandboxInstance) (s : Assoc SandboxInstance)
    → lookup k s ≡ none
    → taps n (assign k i s) ≡ count n i.tap_fd + taps n s
unfolding taps lookup assign
taps-assign n k i [] h = refl
taps-assign n k i ((j, x) ∷ s) h = elim (Bool-cases (str_eq j k)) [
  | inl same ↦ ground arith
  | inr other ↦ rw other (omega (arith, taps-assign n k i s (ground arith)))
]

taps-erase :
    (n : ℕ) (k : String) (i : SandboxInstance) (s : Assoc SandboxInstance)
    → lookup k s ≡ some i
    → taps n s ≡ count n i.tap_fd + taps n (erase k s)
unfolding taps lookup erase
taps-erase n k i [] h = ground arith
taps-erase n k i ((j, x) ∷ s) h = elim (Bool-cases (str_eq j k)) [
  | inl same ↦ ground arith
  | inr other ↦ rw other (omega (arith, taps-erase n k i s (ground arith)))
]

module _ (os : Os) (n : ℕ) where
  -- A step that leaves the cgroups as they were, and hands `j` out.
  pub handed-Held :
      (j k : ℕ) (m u : Machine SandboxManager)
      → u.state ≡ m.state
      → Opens n j m.trace u.trace
      → Held n k m
      → Held n (j + k) u
  handed-Held j k m u same o h = rw same (omega arith)

  pub frame-Held :
      (k : ℕ) (m u : Machine SandboxManager)
      → u.state ≡ m.state
      → Opens n 0 m.trace u.trace
      → Held n k m
      → Held n k u
  frame-Held k m u same o h = omega (arith, handed-Held 0 k m u same o h)

  pub close_fd-Held :
      (fd : ℤ) (k : ℕ) (m : Machine SandboxManager)
      → Held n (count n fd + k) m
      → Held n k (close_fd os fd m).1
  unfolding closes opens closes_event opens_event
  close_fd-Held fd k m h = ground arith

  kill_process-Held :
      (pid : ℤ) (k : ℕ) (m : Machine SandboxManager)
      → Held n k m
      → Held n k (kill_process os pid m).1
  unfolding kill_process closes opens closes_event opens_event
  kill_process-Held pid k m h = ground arith

  pub destroy-Held :
      (id : String) (k : ℕ) (m : Machine SandboxManager)
      → Held n k m
      → Held n k (on_cgroups (destroy_cgroup os id) m).1
  destroy-Held id k m h = destroys-IsBalanced os n k id (cgroups_of m) h

  pub removed_all-Held :
      (path : String) (k : ℕ) (m : Machine SandboxManager)
      → Held n k m
      → Held n k (record m { trace = removed_all path ∷ m.trace })
  unfolding closes opens closes_event opens_event
  removed_all-Held path k m h = omega (arith, h)

  abbrev after_close : SandboxInstance → Machine SandboxManager → Machine SandboxManager
  after_close i m = (close_fd os i.tap_fd (kill_process os i.firecracker_pid m).1).1

  kill_state :
      (i : SandboxInstance) (m : Machine SandboxManager)
      → (after_close i m).state.sandboxes ≡ m.state.sandboxes
  unfolding kill_process
  kill_state i m = ground arith

  -- What `terminate` and the loop of `terminate_all` do to one sandbox.
  module _ (id path : String) (i : SandboxInstance) (k : ℕ) (m : Machine SandboxManager)
      (h : Held n (count n i.tap_fd + k) m) where
    close-Held : Held n k (after_close i m)
    close-Held =
        close_fd-Held i.tap_fd k (kill_process os i.firecracker_pid m).1
          (kill_process-Held i.firecracker_pid (count n i.tap_fd + k) m h)

    swept-Held :
        let u = (on_cgroups (destroy_cgroup os id) (after_close i m)).1 in
        Held n k (record u { trace = removed_all path ∷ u.trace })
    swept-Held =
        removed_all-Held path k (on_cgroups (destroy_cgroup os id) (after_close i m)).1
          (destroy-Held id k (after_close i m) close-Held)

    stopped-Held :
        let u = (on_cgroups (destroy_cgroup os id) (stop_monitoring os id (after_close i m)).1).1 in
        Held n k (record u { trace = removed_all path ∷ u.trace })
    stopped-Held =
        let s : Machine SandboxManager = (stop_monitoring os id (after_close i m)).1 in
        removed_all-Held path k (on_cgroups (destroy_cgroup os id) s).1 (
          destroy-Held id k s (
            frame-Held k (after_close i m) s (stop_monitoring-state os id (after_close i m))
              (stop_monitoring-Opens os n id (after_close i m)) close-Held))

  pub terminate-IsAccounted :
      (id : String) (m : Machine SandboxManager)
      → IsAccounted n m
      → IsAccounted n (terminate os id m).1
  unfolding terminate
  terminate-IsAccounted id m h = elim (Option-cases (lookup id m.state.sandboxes)) [
    | inl absent ↦ ground (arith, absent, h)
    | inr (i, found) ↦
        let path : String = join m.state.base_runtime_dir id in
        let k : ℕ = taps n (erase id m.state.sandboxes) in
        let split : Held n (count n i.tap_fd + k) m =
          omega (arith, h, taps-erase n id i m.state.sandboxes found) in
        let s : Machine SandboxManager = (stop_monitoring os id (after_close i m)).1 in
        let u : Machine SandboxManager = (on_cgroups (destroy_cgroup os id) s).1 in
        let last : Machine SandboxManager = record {
          state = record (u.state) { sandboxes = erase id u.state.sandboxes };
          trace = removed_all path ∷ u.trace;
        } in
        let same : s.state.sandboxes ≡ m.state.sandboxes =
          ap (λ (t : SandboxManager). t.sandboxes) (stop_monitoring-state os id (after_close i m))
          ∙ kill_state i m in
        let e : (terminate os id m).1 ≡ last = rw (found, terminate) refl in
        let held : Held n (taps n (erase id s.state.sandboxes)) last =
          rw same (stopped-Held id path i k m split) in
        rw e held
  ]

  pub terminate_each-Held :
      (l : Assoc SandboxInstance) (k : ℕ) (m : Machine SandboxManager)
      → Held n (taps n l + k) m
      → Held n k (terminate_each os l m).1
  unfolding terminate_each taps
  terminate_each-Held [] k m h = omega (arith, h)
  terminate_each-Held ((id, i) ∷ rest) k m h =
      terminate_each-Held rest k _ (swept-Held id _ i (taps n rest + k) m (omega (arith, h)))
