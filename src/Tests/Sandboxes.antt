-- ===== src/Tests/Sandboxes.antt =====
-- The sandbox manager at concrete inputs.
use aegis_sandbox.Prelude.{
  ◌≡◌, ◌≢◌, ◌⊎◌, inl, refl, String, true, false, ◌||◌, none, some, [], ◌∷◌, lookup, has_key,
  if◌then◌else◌,
}
use aegis_sandbox.Prelude.Int.{pos, is_pos, is_neg}
use aegis_sandbox.Prelude.Paths.{join, is_empty}
use aegis_sandbox.Core.{Status, success, err_invalid_sandbox_id}
use aegis_sandbox.Os.{Machine, killed, closed, removed_all, Latest}
use aegis_sandbox.Cgroup.Manager.{
  CgroupInfo, create_cgroup, apply_limits, write_sysfs_file, fetch_inode_id, attach_pid,
}
use aegis_sandbox.Sandbox.Types.{SandboxConfig, default_config, SandboxInstance, SandboxManager}
use aegis_sandbox.Sandbox.Boot.{
  boot, setup_tap_interface, spawn_firecracker_process, await_socket, restore_firecracker_snapshot,
  send_unix_http_put,
}
use aegis_sandbox.Sandbox.Steps.{prepare, new_instance}
use aegis_sandbox.Sandbox.Manager.{set_locked, create_sandbox, terminate_sandbox, terminate_all}
use aegis_sandbox.Sandbox.Create.{Registered, create_sandbox_blocks, create_sandbox_outcome}
use aegis_sandbox.Sandbox.Terminate.{Occurs, without, terminate_sandbox_outcome}
use aegis_sandbox.Sandbox.Shutdown.{terminate_all_outcome}
use aegis_sandbox.Tests.Machines.{quiet_os, deaf_os}

abbrev pub config : SandboxConfig
config = record default_config { sandbox_id = "agent-1" }

-- A manager without loader and engine, and without sandboxes.
abbrev pub empty : Machine SandboxManager
empty = record {
  state = record {
    ebpf_loader = none;
    policy_engine = none;
    cgroup_manager = record { root_path = "/sys/fs/cgroup/aegis"; cgroups = [] };
    base_runtime_dir = "/var/run/aegis";
    locked = false;
    sandboxes = [];
  };
  trace = [];
}

abbrev pub instance : SandboxInstance
instance = record (new_instance config "/var/run/aegis/agent-1") {
  firecracker_pid = pos 4242;
  tap_fd = pos 6;
  is_active = true;
}

abbrev cgroup_of_it : CgroupInfo
cgroup_of_it = record {
  sandbox_id = "agent-1";
  cgroup_path = "/sys/fs/cgroup/aegis/agent-1";
  cgroup_id = 77;
  cgroup_fd = pos 5;
  limits = config.resource_limits;
}

-- One with the sandbox.
abbrev pub busy : Machine SandboxManager
busy = record empty {
  state = record (empty.state) {
    cgroup_manager = record (empty.state.cgroup_manager) {
      cgroups = ("agent-1", cgroup_of_it) ∷ [];
    };
    sandboxes = ("agent-1", instance) ∷ [];
  };
}

create_sandbox_outcome_example :
    ((n : Machine SandboxManager) × (create_sandbox quiet_os config empty ≡ some (success, n))
      × Registered config empty.state n.state)
    ⊎ ((s : Status) × (n : Machine SandboxManager) × (create_sandbox quiet_os config empty
          ≡ some (s, n))
        × (s ≢ success)
        × (n.state ≡ empty.state))
    ⊎ (create_sandbox quiet_os config empty ≡ none)
create_sandbox_outcome_example = create_sandbox_outcome quiet_os config empty refl

pub named : (is_empty "agent-1" || has_key "agent-1" empty.state.sandboxes) ≡ false
unfolding has_key is_empty
named = refl

pub deaf_prepared : (prepare deaf_os config (set_locked true empty)).0.0 ≡ success
unfolding prepare create_cgroup has_key apply_limits write_sysfs_file fetch_inode_id
    setup_tap_interface spawn_firecracker_process await_socket new_instance attach_pid
deaf_prepared = refl

pub deaf_down :
    (boot deaf_os
      (prepare deaf_os config (set_locked true empty)).0.1
      (prepare deaf_os config (set_locked true empty)).1).0
    ≢ success
unfolding prepare create_cgroup has_key apply_limits write_sysfs_file fetch_inode_id
    setup_tap_interface spawn_firecracker_process await_socket new_instance attach_pid boot
    restore_firecracker_snapshot send_unix_http_put
deaf_down e = cc

deaf_creation_blocks : create_sandbox deaf_os config empty ≡ none
deaf_creation_blocks =
    create_sandbox_blocks deaf_os config empty refl named deaf_prepared (inl deaf_down)

terminate_sandbox_outcome_example :
    ((lookup "agent-1" busy.state.sandboxes ≡ none)
      × (terminate_sandbox quiet_os "agent-1" busy ≡ some (err_invalid_sandbox_id, busy)))
    ⊎ ((i : SandboxInstance) × (lookup "agent-1" busy.state.sandboxes ≡ some i)
        × (n : Machine SandboxManager) × (terminate_sandbox quiet_os "agent-1" busy
            ≡ some (success, n))
        × (n.state ≡ without quiet_os "agent-1" busy)
        × (is_pos i.firecracker_pid ≡ true → Occurs (killed i.firecracker_pid) n.trace)
        × (is_neg i.tap_fd ≡ false → Occurs (closed i.tap_fd) n.trace)
        × Latest (removed_all (join "/var/run/aegis" "agent-1")) n.trace)
terminate_sandbox_outcome_example = terminate_sandbox_outcome quiet_os "agent-1" busy refl

terminate_all_outcome_example :
    (n : Machine SandboxManager) × (terminate_all quiet_os busy ≡ some (tt, n))
    × (n.state.sandboxes ≡ [])
    × (n.state.locked ≡ false)
    × ((id : String)
        → lookup id n.state.cgroup_manager.cgroups ≡ (
            if has_key id busy.state.sandboxes
            then none
            else lookup id busy.state.cgroup_manager.cgroups))
unfolding lookup
terminate_all_outcome_example = terminate_all_outcome quiet_os busy refl (refl, tt)
