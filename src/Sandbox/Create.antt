-- ===== src/Sandbox/Create.antt =====
-- What `create_sandbox` does: it registers a running sandbox with its cgroup, or leaves the manager as
-- it was, or does not return.
use aegis_sandbox.Prelude.{
  ℕ, ◌-◌, ◌≡◌, ◌≢◌, ◌⊎◌, inl, inr, refl, ap, String, true, false, ◌||◌, Option, none, some, arith,
  lookup, assign, has_key, has_key-false, Bool-cases,
}
use aegis_sandbox.Prelude.Paths.{is_empty}
use aegis_sandbox.Core.{Status, success, err_invalid_sandbox_id, running}
use aegis_sandbox.Os.{Os, Machine}
use aegis_sandbox.Cgroup.Manager.{CgroupInfo, is_success}
use aegis_sandbox.Cgroup.Create.{Entry}
use aegis_sandbox.Sandbox.Types.{SandboxConfig, SandboxInstance, SandboxManager}
use aegis_sandbox.Sandbox.Boot.{boot, apply_ebpf_policies}
use aegis_sandbox.Sandbox.Steps.{running_instance, prepare}
use aegis_sandbox.Sandbox.Manager.{with_lock, set_locked, start_instance, create_sandbox}
use aegis_sandbox.Sandbox.Prepare.{prepare_outcome, prepare_instance}
use aegis_sandbox.Sandbox.Start.{
  booted, applied, registered, start_blocks_boot, start_blocks_apply, start_registers,
}

-- What a creation that succeeds has done: the id was not empty and not in use; the cgroup and the
-- sandbox are there, active, running and of the configuration; all else is as it was.
pub record Registered (config : SandboxConfig) (s t : SandboxManager) : Type 0 where
  pub named : is_empty config.sandbox_id ≡ false
  pub fresh : lookup config.sandbox_id s.sandboxes ≡ none
  pub fresh_cgroup : lookup config.sandbox_id s.cgroup_manager.cgroups ≡ none
  pub info : CgroupInfo
  pub entry : Entry s.cgroup_manager.root_path config.sandbox_id config.resource_limits info
  pub instance : SandboxInstance
  pub configured : instance.config ≡ config
  pub identified : instance.metadata.sandbox_id ≡ config.sandbox_id
  pub runs : instance.metadata.state ≡ running
  pub active : instance.is_active ≡ true
  pub result : t ≡ record s {
    cgroup_manager = record (s.cgroup_manager) {
      cgroups = assign config.sandbox_id info s.cgroup_manager.cgroups;
    };
    sandboxes = assign config.sandbox_id instance s.sandboxes;
  }

module _ (os : Os) (config : SandboxConfig) (m : Machine SandboxManager)
    (unlocked : m.state.locked ≡ false) where
  abbrev id : String
  id = config.sandbox_id

  abbrev pub prepared : (Status × SandboxInstance) × Machine SandboxManager
  prepared = prepare os config (set_locked true m)

  abbrev pub started : Option (Status × Machine SandboxManager)
  started = start_instance os prepared.0.1 (os.now m.trace) prepared.1

  pub refused :
      (is_empty id || has_key id m.state.sandboxes) ≡ true
      → create_sandbox os config m ≡ some (err_invalid_sandbox_id, m)
  unfolding create_sandbox with_lock
  refused h = ground arith

  pub unprepared :
      (is_empty id || has_key id m.state.sandboxes) ≡ false
      → is_success prepared.0.0 ≡ false
      → create_sandbox os config m ≡ some (prepared.0.0, set_locked false prepared.1)
  unfolding create_sandbox with_lock
  unprepared h failed = ground arith

  pub blocked :
      (is_empty id || has_key id m.state.sandboxes) ≡ false
      → is_success prepared.0.0 ≡ true
      → started ≡ none
      → create_sandbox os config m ≡ none
  unfolding create_sandbox with_lock
  blocked h ok e = ground arith

  pub finished :
      (n : Machine SandboxManager)
      → (is_empty id || has_key id m.state.sandboxes) ≡ false
      → is_success prepared.0.0 ≡ true
      → started ≡ some (success, n)
      → create_sandbox os config m ≡ some (success, set_locked false n)
  unfolding create_sandbox with_lock
  finished n h ok e = ground arith

  -- A creation whose microVM does not boot, or whose policies cannot be applied, does not return: it
  -- calls `terminate_sandbox`, which waits for the mutex that the creation holds.
  pub create_sandbox_blocks :
      (is_empty id || has_key id m.state.sandboxes) ≡ false
      → (prepare os config (set_locked true m)).0.0 ≡ success
      → let p = prepare os config (set_locked true m) in
        let b = boot os p.0.1 p.1 in
        ((b.0 ≢ success) ⊎ ((apply_ebpf_policies os p.0.1 b.1).0 ≢ success))
        → create_sandbox os config m ≡ none
  create_sandbox_blocks h ok fails = blocked h (ap is_success ok) (start fails)
    where
      held : prepared.1.state.locked ≡ true
      held = elim (prepare_outcome os config (set_locked true m)) [
        | inl (_, _, (info, _, e)) ↦ ap (λ (s : SandboxManager). s.locked) e
        | inr (no_success, _) ↦ absurd (no_success ok)
      ]

      start :
          ((boot os prepared.0.1 prepared.1).0 ≢ success)
            ⊎ ((apply_ebpf_policies os prepared.0.1 (boot os prepared.0.1 prepared.1).1).0
                ≢ success)
          → started ≡ none
      start f = elim (Bool-cases (is_success (boot os prepared.0.1 prepared.1).0)) [
        | inl up ↦
            start_blocks_apply os prepared.0.1 (os.now m.trace) prepared.1 held up (ground arith)
        | inr down ↦ start_blocks_boot os prepared.0.1 (os.now m.trace) prepared.1 held down
      ]

  registration :
      (bt : ℕ) (n : Machine SandboxManager)
      → (is_empty id || has_key id m.state.sandboxes) ≡ false
      → prepared.0.0 ≡ success
      → n.state ≡ record (prepared.1.state) {
        sandboxes =
            assign prepared.0.1.config.sandbox_id
              (running_instance prepared.0.1 bt)
              prepared.1.state.sandboxes;
      }
      → Registered config m.state (set_locked false n).state
  unfolding running_instance
  registration bt n h ok e = elim (prepare_outcome os config (set_locked true m)) [
    | inr (no_success, _) ↦ absurd (no_success ok)
    | inl (_, new, (info, entry, s)) ↦ record {
      named = ground arith;
      fresh = has_key-false id m.state.sandboxes (ground arith);
      fresh_cgroup = new;
      info = info;
      entry = entry;
      instance = running_instance prepared.0.1 bt;
      configured = (prepare_instance os config (set_locked true m)).0;
      identified = (prepare_instance os config (set_locked true m)).1;
      runs = refl;
      active = refl;
      result = ground (arith, e, s, (prepare_instance os config (set_locked true m)).0);
    }
  ]

  -- Once prepared, a creation registers the sandbox or does not return.
  start_outcome :
      (is_empty id || has_key id m.state.sandboxes) ≡ false
      → prepared.0.0 ≡ success
      → prepared.1.state.locked ≡ true
      → ((n : Machine SandboxManager) × (create_sandbox os config m ≡ some (success, n))
          × Registered config m.state n.state)
        ⊎ (create_sandbox os config m ≡ none)
  start_outcome good ok held = elim (Bool-cases (is_success (booted os i t p held).0)) [
    | inr down ↦ inr (blocked good (ap is_success ok) (start_blocks_boot os i t p held down))
    | inl up ↦ elim (Bool-cases (is_success (applied os i t p held).0)) [
      | inr failed ↦
          inr (blocked good (ap is_success ok) (start_blocks_apply os i t p held up failed))
      | inl done ↦
          let n : Machine SandboxManager = registered os i t p held in
          let bt : ℕ = os.now (applied os i t p held).1.trace - t in
          inl (
            set_locked false n,
            finished n good (ap is_success ok) (start_registers os i t p held up done),
            registration bt n good ok refl,
          )
    ]
  ]
    where
      i : SandboxInstance
      i = prepared.0.1

      p : Machine SandboxManager
      p = prepared.1

      t : ℕ
      t = os.now m.trace

  -- The three ways in which a creation on a manager whose mutex is free can end: it registers a running
  -- sandbox with its cgroup and returns success; it returns another status with the manager as it
  -- was; or it does not return. In the first two the mutex is free again.
  pub create_sandbox_outcome :
      ((n : Machine SandboxManager) × (create_sandbox os config m ≡ some (success, n))
        × Registered config m.state n.state)
      ⊎ ((s : Status) × (n : Machine SandboxManager) × (create_sandbox os config m ≡ some (s, n))
          × (s ≢ success)
          × (n.state ≡ m.state))
      ⊎ (create_sandbox os config m ≡ none)
  create_sandbox_outcome = elim (Bool-cases (is_empty id || has_key id m.state.sandboxes)) [
    | inl bad ↦ inr (inl (err_invalid_sandbox_id, m, refused bad, (λ e. cc), refl))
    | inr good ↦ elim (prepare_outcome os config (set_locked true m)) [
      | inr (failed, same) ↦ inr (
          inl (
            prepared.0.0,
            set_locked false prepared.1,
            unprepared good (ground arith),
            failed,
            ground (arith, same, unlocked),
          ))
      | inl (ok, _, (info, entry, s)) ↦
          elim (start_outcome good ok (ap (λ (t : SandboxManager). t.locked) s)) [
            | inl done ↦ inl done
            | inr stuck ↦ inr (inr stuck)
          ]
    ]
  ]
