-- ===== src/Sandbox/Terminate.antt =====
-- What `terminate_sandbox` and `terminate_all` do.
use aegis_sandbox.Prelude.{
  ◌≡◌, ◌⊎◌, inl, inr, ◌∙◌, String, true, false, none, some, arith, lookup, erase, Option-cases, Any,
}
use aegis_sandbox.Prelude.Int.{is_pos, is_neg}
use aegis_sandbox.Prelude.Paths.{join}
use aegis_sandbox.Core.{success, err_invalid_sandbox_id}
use aegis_sandbox.Os.{Os, Event, Trace, Machine, killed, closed, removed_all, Latest}
use aegis_sandbox.Cgroup.Manager.{CgroupManager, get_cgroup_id, destroy_cgroup, close_fd}
use aegis_sandbox.Cgroup.History.{destroy_cgroup-state}
use aegis_sandbox.Ebpf.Loader.{get_map_fd, monitored_map_fd, update_map, set_cgroup_monitored}
use aegis_sandbox.Sandbox.Types.{SandboxInstance, SandboxManager}
use aegis_sandbox.Sandbox.Steps.{kill_process, stop_monitoring, terminate}
use aegis_sandbox.Sandbox.Manager.{with_lock, set_locked, terminate_sandbox}
use aegis_sandbox.Sandbox.Frames.{when_loader-state, set_cgroup_monitored-state}

-- An event is in a trace.
abbrev pub Occurs : Event → Trace → Type 0
Occurs e t = Any (λ x. x ≡ e) t

module _ (os : Os) where
  pub stop_monitoring-state :
      (id : String) (m : Machine SandboxManager) → (stop_monitoring os id m).1.state ≡ m.state
  unfolding stop_monitoring
  stop_monitoring-state id m = elim (Option-cases m.state.ebpf_loader) [
    | inl e ↦ ground arith
    | inr (l, e) ↦ ground (
      arith,
      when_loader-state os (set_cgroup_monitored os (get_cgroup_id m.state.cgroup_manager id) false)
          (set_cgroup_monitored-state os (get_cgroup_id m.state.cgroup_manager id) false) m,
    )
  ]

  -- What has occurred stays in the trace.
  stop_monitoring-Occurs :
      (e : Event) (id : String) (m : Machine SandboxManager)
      → Occurs e m.trace
      → Occurs e (stop_monitoring os id m).1.trace
  unfolding stop_monitoring set_cgroup_monitored monitored_map_fd get_map_fd update_map
  stop_monitoring-Occurs e id m o = ground arith

  destroy_cgroup-Occurs :
      (e : Event) (id : String) (m : Machine CgroupManager)
      → Occurs e m.trace
      → Occurs e (destroy_cgroup os id m).1.trace
  unfolding destroy_cgroup
  destroy_cgroup-Occurs e id m o = ground arith

  module _ (id : String) (m : Machine SandboxManager) where
    -- The manager without the sandbox and its cgroup.
    abbrev pub without : SandboxManager
    without = record (m.state) {
      cgroup_manager = record (m.state.cgroup_manager) {
        cgroups = erase id m.state.cgroup_manager.cgroups;
      };
      sandboxes = erase id m.state.sandboxes;
    }

    module _ (i : SandboxInstance) (found : lookup id m.state.sandboxes ≡ some i) where
      -- The machine once the process and the TAP device are dealt with, and once the monitoring is off.
      abbrev after_close : Machine SandboxManager
      after_close = (close_fd os i.tap_fd (kill_process os i.firecracker_pid m).1).1

      abbrev after_stop : Machine SandboxManager
      after_stop = (stop_monitoring os id after_close).1

      abbrev cgroups : Machine CgroupManager
      cgroups = record { state = after_stop.state.cgroup_manager; trace = after_stop.trace }

      stopped : after_stop.state ≡ m.state
      unfolding kill_process
      stopped = stop_monitoring-state id after_close ∙ ground arith

      terminate-state : ((terminate os id m).0 ≡ success) × ((terminate os id m).1.state ≡ without)
      unfolding terminate
      terminate-state =
          (ground arith, ground (arith, found, stopped, destroy_cgroup-state os id cgroups))

      -- Every step up to the closing of the TAP device stays on record.
      terminate-Occurs :
          (e : Event) → Occurs e after_close.trace → Occurs e (terminate os id m).1.trace
      unfolding terminate
      terminate-Occurs e o = ground (
        arith,
        found,
        destroy_cgroup-Occurs e id cgroups (stop_monitoring-Occurs e id after_close o),
      )

      terminate-Latest :
          Latest (removed_all (join m.state.base_runtime_dir id)) (terminate os id m).1.trace
      unfolding terminate
      terminate-Latest = ground (arith, found)

      terminated_process :
          is_pos i.firecracker_pid ≡ true
          → Occurs (killed i.firecracker_pid) (terminate os id m).1.trace
      unfolding kill_process
      terminated_process h = terminate-Occurs (killed i.firecracker_pid) (ground arith)

      terminated_tap :
          is_neg i.tap_fd ≡ false → Occurs (closed i.tap_fd) (terminate os id m).1.trace
      unfolding kill_process
      terminated_tap h = terminate-Occurs (closed i.tap_fd) (ground arith)

  -- On a manager whose mutex is free `terminate_sandbox` returns. For an unknown id it returns
  -- `err_invalid_sandbox_id` and does nothing. Else it removes the sandbox and its cgroup and nothing
  -- more, kills the process if there is one, closes the TAP descriptor if it is open, and removes the
  -- runtime directory last.
  pub terminate_sandbox_outcome :
      (id : String) (m : Machine SandboxManager)
      → m.state.locked ≡ false
      → ((lookup id m.state.sandboxes ≡ none)
          × (terminate_sandbox os id m ≡ some (err_invalid_sandbox_id, m)))
        ⊎ ((i : SandboxInstance) × (lookup id m.state.sandboxes ≡ some i)
            × (n : Machine SandboxManager) × (terminate_sandbox os id m ≡ some (success, n))
            × (n.state ≡ without id m)
            × (is_pos i.firecracker_pid ≡ true → Occurs (killed i.firecracker_pid) n.trace)
            × (is_neg i.tap_fd ≡ false → Occurs (closed i.tap_fd) n.trace)
            × Latest (removed_all (join m.state.base_runtime_dir id)) n.trace)
  unfolding terminate_sandbox with_lock
  terminate_sandbox_outcome id m free = elim (Option-cases (lookup id m.state.sandboxes)) [
    | inl unknown ↦ inl (unknown, unfold terminate in ground arith)
    | inr (i, found) ↦
        let l : Machine SandboxManager = set_locked true m in
        inr (
          i,
          found,
          set_locked false (terminate os id l).1,
          ground (arith, terminate-state id l i found),
          ground (arith, terminate-state id l i found),
          terminated_process id l i found,
          terminated_tap id l i found,
          terminate-Latest id l i found,
        )
  ]
