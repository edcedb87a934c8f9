-- ===== src/Sandbox/Prepare.antt =====
-- Steps 1 to 5 of a creation: a failure takes back what was done, and success adds one cgroup.
use aegis_sandbox.Prelude.{
  ◌≡◌, ◌≢◌, ◌⊎◌, inl, inr, ap, ◌∙◌, String, true, false, none, arith, lookup, assign, has_key-false,
  erase-assign, Bool-cases,
}
use aegis_sandbox.Prelude.Paths.{join}
use aegis_sandbox.Core.{Status, success}
use aegis_sandbox.Os.{Os, Machine}
use aegis_sandbox.Cgroup.Manager.{
  CgroupInfo, CgroupManager, is_success, create_directories, create_cgroup, close_fd,
}
use aegis_sandbox.Cgroup.Create.{Entry, create_cgroup_outcome}
use aegis_sandbox.Cgroup.History.{attach_pid-state, destroy_cgroup-state}
use aegis_sandbox.Sandbox.Types.{SandboxConfig, SandboxInstance, SandboxManager, on_cgroups}
use aegis_sandbox.Sandbox.Boot.{setup_tap_interface, spawn_firecracker_process}
use aegis_sandbox.Sandbox.Steps.{new_instance, prepare, undo}
use aegis_sandbox.Sandbox.Frames.{setup_tap_interface-state, spawn_firecracker_process-state}

module _ (os : Os) (config : SandboxConfig) (m : Machine SandboxManager) where
  abbrev id : String
  id = config.sandbox_id

  -- The machine after each step.
  abbrev after_dirs : Machine SandboxManager
  after_dirs = (create_directories os (join m.state.base_runtime_dir id) m).1

  abbrev after_cgroup : Status × Machine SandboxManager
  after_cgroup = on_cgroups (create_cgroup os id config.resource_limits) after_dirs

  abbrev after_tap : (Status × SandboxInstance) × Machine SandboxManager
  after_tap =
      setup_tap_interface os (new_instance config (join m.state.base_runtime_dir id)) after_cgroup.1

  abbrev after_spawn : (Status × SandboxInstance) × Machine SandboxManager
  after_spawn = spawn_firecracker_process os after_tap.0.1 after_tap.1

  -- The table with one more cgroup.
  abbrev pub with_cgroup : CgroupInfo → SandboxManager
  with_cgroup info = record (m.state) {
    cgroup_manager = record (m.state.cgroup_manager) {
      cgroups = assign id info m.state.cgroup_manager.cgroups;
    };
  }

  abbrev cgroups_of : Machine SandboxManager → Machine CgroupManager
  cgroups_of n = record { state = n.state.cgroup_manager; trace = n.trace }

  prepare_without_cgroup :
      is_success after_cgroup.0 ≡ false
      → after_cgroup.1.state ≡ m.state
      → ((prepare os config m).0.0 ≢ success) × ((prepare os config m).1.state ≡ m.state)
  unfolding prepare
  prepare_without_cgroup failed same = ground arith

  module _ (info : CgroupInfo) (made : is_success after_cgroup.0 ≡ true)
      (fresh : lookup id m.state.cgroup_manager.cgroups ≡ none)
      (added : after_cgroup.1.state ≡ with_cgroup info) where
    undo-state :
        (status : Status) (instance : SandboxInstance) (dir : String) (n : Machine SandboxManager)
        → n.state ≡ with_cgroup info
        → (undo os id dir status instance n).1.state ≡ m.state
    undo-state status instance dir n e = ground (
      arith,
      destroy_cgroup-state os id (cgroups_of n),
      erase-assign id info m.state.cgroup_manager.cgroups,
    )

    prepare_without_tap :
        is_success after_tap.0.0 ≡ false
        → ((prepare os config m).0.0 ≢ success) × ((prepare os config m).1.state ≡ m.state)
    unfolding prepare
    prepare_without_tap failed = (
      ground arith,
      ground (
        arith,
        undo-state after_tap.0.0 after_tap.0.1 (join m.state.base_runtime_dir id) after_tap.1,
        setup_tap_interface-state os (new_instance config (join m.state.base_runtime_dir id))
            after_cgroup.1,
      ),
    )

    tap_state : after_tap.1.state ≡ with_cgroup info
    tap_state =
        setup_tap_interface-state os (new_instance config (join m.state.base_runtime_dir id))
          after_cgroup.1
        ∙ added

    spawn_state : after_spawn.1.state ≡ with_cgroup info
    spawn_state = spawn_firecracker_process-state os after_tap.0.1 after_tap.1 ∙ tap_state

    prepare_without_process :
        is_success after_tap.0.0 ≡ true
        → is_success after_spawn.0.0 ≡ false
        → ((prepare os config m).0.0 ≢ success) × ((prepare os config m).1.state ≡ m.state)
    unfolding prepare
    prepare_without_process tap failed = (
      ground arith,
      ground (
        arith,
        undo-state after_spawn.0.0 after_spawn.0.1 (join m.state.base_runtime_dir id)
            (close_fd os after_spawn.0.1.tap_fd after_spawn.1).1,
        spawn_state,
      ),
    )

    prepare_all :
        is_success after_tap.0.0 ≡ true
        → is_success after_spawn.0.0 ≡ true
        → ((prepare os config m).0.0 ≡ success) × ((prepare os config m).1.state ≡ with_cgroup info)
    unfolding prepare
    prepare_all tap spawned = (
      ground arith,
      ground (
        arith,
        attach_pid-state os id after_spawn.0.1.firecracker_pid (cgroups_of after_spawn.1),
        spawn_state,
      ),
    )

  -- `prepare` makes the cgroup of the sandbox, or leaves the manager as it was.
  pub prepare_outcome :
      (((prepare os config m).0.0 ≡ success)
        × (lookup id m.state.cgroup_manager.cgroups ≡ none)
        × ((info : CgroupInfo) × Entry m.state.cgroup_manager.root_path id config.resource_limits
              info
            × ((prepare os config m).1.state ≡ with_cgroup info)))
      ⊎ (((prepare os config m).0.0 ≢ success) × ((prepare os config m).1.state ≡ m.state))
  prepare_outcome =
      elim (create_cgroup_outcome os id config.resource_limits (cgroups_of after_dirs)) [
        | inl (e, new, (info, entry, s)) ↦
            let fresh = has_key-false id m.state.cgroup_manager.cgroups new in
            let made : is_success after_cgroup.0 ≡ true = ap is_success e in
            let added : after_cgroup.1.state ≡ with_cgroup info =
              ap (λ c. record (m.state) { cgroup_manager = c }) s in
            elim (Bool-cases (is_success after_tap.0.0)) [
              | inl tap ↦ elim (Bool-cases (is_success after_spawn.0.0)) [
                | inl spawned ↦
                    let all = prepare_all info made fresh added tap spawned in
                    inl (all.0, fresh, (info, entry, all.1))
                | inr failed ↦ inr (prepare_without_process info made fresh added tap failed)
              ]
              | inr failed ↦ inr (prepare_without_tap info made fresh added failed)
            ]
        | inr (e, (s, undone)) ↦ inr (
            prepare_without_cgroup (ground arith)
              (ap (λ c. record (m.state) { cgroup_manager = c }) s))
      ]

  setup_tap_interface-instance :
      (i : SandboxInstance) (n : Machine SandboxManager)
      → ((setup_tap_interface os i n).0.1.config ≡ i.config)
        × ((setup_tap_interface os i n).0.1.metadata.sandbox_id ≡ i.metadata.sandbox_id)
  unfolding setup_tap_interface
  setup_tap_interface-instance i n = (ground arith, ground arith)

  spawn_firecracker_process-instance :
      (i : SandboxInstance) (n : Machine SandboxManager)
      → ((spawn_firecracker_process os i n).0.1.config ≡ i.config)
        × ((spawn_firecracker_process os i n).0.1.metadata ≡ i.metadata)
  unfolding spawn_firecracker_process
  spawn_firecracker_process-instance i n = (ground arith, ground arith)

  -- The instance is that of the configuration.
  pub prepare_instance :
      ((prepare os config m).0.1.config ≡ config)
      × ((prepare os config m).0.1.metadata.sandbox_id ≡ id)
  unfolding prepare new_instance
  prepare_instance =
      let i = new_instance config (join m.state.base_runtime_dir id) in
      let tap = setup_tap_interface-instance i after_cgroup.1 in
      let spawned = spawn_firecracker_process-instance after_tap.0.1 after_tap.1 in
      (ground (arith, tap.0, spawned.0), ground (arith, tap.1, spawned.1))
