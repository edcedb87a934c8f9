-- ===== src/Tests/Cgroups.antt =====
-- The cgroup manager at concrete inputs.
use aegis_sandbox.Prelude.{◌≡◌, ◌≢◌, ◌⊎◌, refl, false, [], assign, has_key}
use aegis_sandbox.Core.{success}
use aegis_sandbox.Os.{Machine}
use aegis_sandbox.Cgroup.Manager.{
  CgroupLimits, CgroupInfo, CgroupManager, create_cgroup, apply_limits, write_sysfs_file,
  fetch_inode_id,
}
use aegis_sandbox.Cgroup.Create.{Entry, after, Undone, create_cgroup_outcome}
use aegis_sandbox.Tests.Machines.{quiet_os}

abbrev small : CgroupLimits
small = record { cpu_cores = 2; memory_mb = 256; vram_mb = 0; max_pids = 50 }

abbrev fresh : Machine CgroupManager
fresh = record { state = record { root_path = "/sys/fs/cgroup/aegis"; cgroups = [] }; trace = [] }

create_cgroup_outcome_example :
    (((create_cgroup quiet_os "a" small fresh).0 ≡ success)
      × (has_key "a" fresh.state.cgroups ≡ false)
      × ((info : CgroupInfo) × Entry fresh.state.root_path "a" small info
          × ((after quiet_os "a" small fresh).state
              ≡ record (fresh.state) { cgroups = assign "a" info fresh.state.cgroups })))
    ⊎ (((create_cgroup quiet_os "a" small fresh).0 ≢ success) × Undone quiet_os "a" small fresh)
create_cgroup_outcome_example = create_cgroup_outcome quiet_os "a" small fresh

-- A creation on an idle system succeeds.
create_cgroup_succeeds : (create_cgroup quiet_os "a" small fresh).0 ≡ success
unfolding create_cgroup has_key apply_limits write_sysfs_file fetch_inode_id
create_cgroup_succeeds = refl
