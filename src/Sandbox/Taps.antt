-- ===== src/Sandbox/Taps.antt =====
-- The descriptor of a TAP device through the preparation of a sandbox.
use aegis_sandbox.Prelude.{ℕ, ◌+◌, ◌≡◌, String, true, false, arith, inl, inr, Bool-cases}
use aegis_sandbox.Prelude.Paths.{join}
use aegis_sandbox.Core.{Status}
use aegis_sandbox.Os.{Os, Machine}
use aegis_sandbox.Cgroup.Manager.{
  is_success, create_directories, create_cgroup, destroy_cgroup, attach_pid, close_fd,
}
use aegis_sandbox.Cgroup.Descriptors.{
  count, opens_event, closes_event, opens, closes, creates-IsBalanced, attaches-IsBalanced,
}
use aegis_sandbox.Sandbox.Types.{SandboxConfig, SandboxInstance, SandboxManager, on_cgroups}
use aegis_sandbox.Sandbox.Boot.{setup_tap_interface, spawn_firecracker_process}
use aegis_sandbox.Sandbox.Steps.{new_instance, prepare, undo}
use aegis_sandbox.Sandbox.Frames.{setup_tap_interface-state, spawn_firecracker_process-state}
use aegis_sandbox.Sandbox.Sockets.{spawn_firecracker_process-Opens, setup_tap_interface-Opens}
use aegis_sandbox.Sandbox.Descriptors.{
  cgroups_of, Held, handed-Held, frame-Held, close_fd-Held, destroy-Held, removed_all-Held,
}

module _ (os : Os) (n k : ℕ) (config : SandboxConfig) (m : Machine SandboxManager)
    (h : Held n k m) where
  abbrev id : String
  id = config.sandbox_id

  abbrev dir : String
  dir = join m.state.base_runtime_dir id

  -- The machine after each step.
  abbrev after_dirs : Machine SandboxManager
  after_dirs = (create_directories os dir m).1

  abbrev after_cgroup : Status × Machine SandboxManager
  after_cgroup = on_cgroups (create_cgroup os id config.resource_limits) after_dirs

  abbrev after_tap : (Status × SandboxInstance) × Machine SandboxManager
  after_tap = setup_tap_interface os (new_instance config dir) after_cgroup.1

  abbrev after_spawn : (Status × SandboxInstance) × Machine SandboxManager
  after_spawn = spawn_firecracker_process os after_tap.0.1 after_tap.1

  dirs-Held : Held n k after_dirs
  unfolding opens closes opens_event closes_event
  dirs-Held = omega (arith, h)

  cgroup-Held : Held n k after_cgroup.1
  cgroup-Held =
      creates-IsBalanced os n k id config.resource_limits (cgroups_of after_dirs) dirs-Held

  tap-Held : is_success after_tap.0.0 ≡ true → Held n (count n after_tap.0.1.tap_fd + k) after_tap.1
  tap-Held ok =
      handed-Held os n (count n after_tap.0.1.tap_fd) k after_cgroup.1 after_tap.1
        (setup_tap_interface-state os (new_instance config dir) after_cgroup.1)
        ((setup_tap_interface-Opens os n (new_instance config dir) after_cgroup.1).0 ok) cgroup-Held

  no_tap-Held : is_success after_tap.0.0 ≡ false → Held n k after_tap.1
  no_tap-Held failed =
      frame-Held os n k after_cgroup.1 after_tap.1
        (setup_tap_interface-state os (new_instance config dir) after_cgroup.1)
        ((setup_tap_interface-Opens os n (new_instance config dir) after_cgroup.1).1 failed)
        cgroup-Held

  spawn_tap : after_spawn.0.1.tap_fd ≡ after_tap.0.1.tap_fd
  unfolding spawn_firecracker_process
  spawn_tap = ground arith

  spawn-Held :
      is_success after_tap.0.0 ≡ true → Held n (count n after_spawn.0.1.tap_fd + k) after_spawn.1
  spawn-Held ok = rw spawn_tap (
      frame-Held os n (count n after_tap.0.1.tap_fd + k) after_tap.1 after_spawn.1
        (spawn_firecracker_process-state os after_tap.0.1 after_tap.1)
        (spawn_firecracker_process-Opens os n after_tap.0.1 after_tap.1) (tap-Held ok))

  abbrev without_tap : Machine SandboxManager
  without_tap = (close_fd os after_spawn.0.1.tap_fd after_spawn.1).1

  without_tap-Held : is_success after_tap.0.0 ≡ true → Held n k without_tap
  without_tap-Held ok = close_fd-Held os n after_spawn.0.1.tap_fd k after_spawn.1 (spawn-Held ok)

  attached-Held :
      is_success after_tap.0.0 ≡ true
      → Held n
          (count n after_spawn.0.1.tap_fd + k)
          (on_cgroups (attach_pid os id after_spawn.0.1.firecracker_pid) after_spawn.1).1
  attached-Held ok =
      attaches-IsBalanced os n (count n after_spawn.0.1.tap_fd + k) id
        after_spawn.0.1.firecracker_pid (cgroups_of after_spawn.1) (spawn-Held ok)

  undo-Held :
      (s : Status) (i : SandboxInstance) (u : Machine SandboxManager)
      → Held n k u
      → Held n k (undo os id dir s i u).1
  undo-Held s i u b =
      removed_all-Held os n dir k (on_cgroups (destroy_cgroup os id) u).1
        (destroy-Held os n id k u b)

  -- A preparation that succeeds hands the descriptor of its TAP device out, and one that fails leaves none.
  pub prepare-Held :
      (is_success (prepare os config m).0.0 ≡ true
        → Held n (count n (prepare os config m).0.1.tap_fd + k) (prepare os config m).1)
      × (is_success (prepare os config m).0.0 ≡ false → Held n k (prepare os config m).1)
  unfolding prepare
  prepare-Held = elim (Bool-cases (is_success after_cgroup.0)) [
    | inr failed ↦ (
      λ ok. absurd ground (arith, failed, ok),
      λ _. ground (arith, failed, removed_all-Held os n dir k after_cgroup.1 cgroup-Held),
    )
    | inl made ↦ elim (Bool-cases (is_success after_tap.0.0)) [
      | inr failed ↦ (
        λ ok. absurd ground (arith, made, failed, ok),
        λ _. ground (
          arith,
          made,
          failed,
          undo-Held after_tap.0.0 after_tap.0.1 after_tap.1 (no_tap-Held failed),
        ),
      )
      | inl tap ↦ elim (Bool-cases (is_success after_spawn.0.0)) [
        | inr failed ↦ (
          λ ok. absurd ground (arith, made, tap, failed, ok),
          λ _. ground (
            arith,
            made,
            tap,
            failed,
            undo-Held after_spawn.0.0 after_spawn.0.1 without_tap (without_tap-Held tap),
          ),
        )
        | inl spawned ↦ (
          λ _. ground (arith, made, tap, spawned, attached-Held tap),
          λ f. absurd ground (arith, made, tap, spawned, f),
        )
      ]
    ]
  ]
