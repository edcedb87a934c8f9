-- ===== src/Sandbox/Types.antt =====
-- include/aegis/runtime/sandbox_manager.hpp: the records of the sandbox manager. Times are kept in
-- the nanoseconds that the clock counts.
use aegis_sandbox.Prelude.{ℕ, String, Bool, true, false, Option, some, Assoc}
use aegis_sandbox.Prelude.Int.{ℤ, minus_one}
use aegis_sandbox.Core.{RuntimeEnvironment, SandboxMetadata}
use aegis_sandbox.Os.{Machine, Exec}
use aegis_sandbox.Policy.Engine.{PolicyEngine}
use aegis_sandbox.Cgroup.Manager.{CgroupLimits, CgroupManager}
use aegis_sandbox.Ebpf.Loader.{EbpfLoader}

pub record SandboxConfig : Type 0 where
  pub sandbox_id : String
  pub environment : RuntimeEnvironment
  pub resource_limits : CgroupLimits
  pub security_policy_name : String
  pub use_snapshot_restore : Bool
  pub firecracker_bin_path : String
  pub rootfs_image_path : String
  pub kernel_image_path : String
  pub snapshot_dir_path : String

-- `SandboxConfig config{}`: the members' default initialisers.
abbrev pub default_config : SandboxConfig
default_config = record {
  sandbox_id = "";
  environment = RuntimeEnvironment.python311;
  resource_limits = record { cpu_cores = 1; memory_mb = 512; vram_mb = 0; max_pids = 100 };
  security_policy_name = "strict_python";
  use_snapshot_restore = true;
  firecracker_bin_path = "/usr/local/bin/firecracker";
  rootfs_image_path = "/var/lib/aegis/rootfs/alpine-python311.ext4";
  kernel_image_path = "/var/lib/aegis/kernel/vmlinux-6.6.x";
  snapshot_dir_path = "/var/lib/aegis/snapshots";
}

pub record ExecutionResult : Type 0 where
  pub sandbox_id : String
  pub exit_code : ℤ
  pub stdout_output : String
  pub stderr_output : String
  pub boot_time_ns : ℕ
  pub execution_time_ns : ℕ
  pub security_violation_triggered : Bool
  pub security_rule_violated : String

-- `ExecutionResult result{}` with the id that `execute_code` sets.
abbrev pub empty_result : String → ExecutionResult
empty_result id = record {
  sandbox_id = id;
  exit_code = minus_one;
  stdout_output = "";
  stderr_output = "";
  boot_time_ns = 0;
  execution_time_ns = 0;
  security_violation_triggered = false;
  security_rule_violated = "";
}

pub record SandboxInstance : Type 0 where
  pub config : SandboxConfig
  pub metadata : SandboxMetadata
  pub firecracker_pid : ℤ
  pub socket_path : String
  pub guest_vsock_path : String
  pub tap_fd : ℤ
  pub is_active : Bool

-- The manager, with the loader and the engine that it shares and the cgroup manager that it owns;
-- `locked` is `m_mutex`, which is not recursive.
pub record SandboxManager : Type 0 where
  pub ebpf_loader : Option EbpfLoader
  pub policy_engine : Option PolicyEngine
  pub cgroup_manager : CgroupManager
  pub base_runtime_dir : String
  pub locked : Bool
  pub sandboxes : Assoc SandboxInstance

-- A call of the cgroup manager.
abbrev pub on_cgroups : {A : Type 0} → Exec CgroupManager A → Exec SandboxManager A
on_cgroups p m =
    let (a, m') = p (record { state = m.state.cgroup_manager; trace = m.trace }) in
    (a, record { state = record (m.state) { cgroup_manager = m'.state }; trace = m'.trace })

-- A call of the loader `l`.
abbrev pub on_loader : {A : Type 0} → EbpfLoader → Exec EbpfLoader A → Exec SandboxManager A
on_loader l p m =
    let (a, m') = p (record { state = l; trace = m.trace }) in
    (a, record { state = record (m.state) { ebpf_loader = some m'.state }; trace = m'.trace })

-- A method that may not return: `none` is a thread that waits for a lock which it holds itself.
abbrev pub Run : Type 0 → Type 0
Run A = Machine SandboxManager → Option (A × Machine SandboxManager)
