-- ===== src/Core.antt =====
-- include/aegis/aegis.hpp: the status codes and their messages, the enumerations, the metadata
-- of a sandbox and the version. `boot_time_ms` is kept as the nanoseconds that the clock counts;
-- `created_at`, which nothing reads, is left out.
pub mod Messages
use aegis_sandbox.Prelude.{ℕ, String, append, decimal}

pub data Status : Type 0 where
  success err_micro_vm_boot_failed err_snapshot_restore_failed err_ebpf_probe_load_failed : Status
  err_syscall_blocked err_network_egress_blocked err_agent_execution_timeout : Status
  err_policy_violation err_cgroup_quota_exceeded err_invalid_sandbox_id : Status
  err_tap_interface_creation_failed err_unknown : Status

-- The enumerators' values.
unfoldable pub status_code : Status → ℕ
status_code success = 0
status_code err_micro_vm_boot_failed = 1
status_code err_snapshot_restore_failed = 2
status_code err_ebpf_probe_load_failed = 3
status_code err_syscall_blocked = 4
status_code err_network_egress_blocked = 5
status_code err_agent_execution_timeout = 6
status_code err_policy_violation = 7
status_code err_cgroup_quota_exceeded = 8
status_code err_invalid_sandbox_id = 9
status_code err_tap_interface_creation_failed = 10
status_code err_unknown = 999

unfoldable pub status_to_string : Status → String
status_to_string success = "Success"
status_to_string err_micro_vm_boot_failed = "Error: Firecracker MicroVM Boot Failed"
status_to_string err_snapshot_restore_failed = "Error: MicroVM Memory Snapshot Restore Failed"
status_to_string err_ebpf_probe_load_failed = "Error: eBPF Kernel Probe Loading Failed"
status_to_string err_syscall_blocked = "Security Alert: Syscall Blocked by eBPF Policy"
status_to_string err_network_egress_blocked =
    "Security Alert: Network Egress Blocked by eBPF Policy"
status_to_string err_agent_execution_timeout = "Error: Agent Execution Timeout Reached"
status_to_string err_policy_violation = "Error: Security Policy Constraints Violated"
status_to_string err_cgroup_quota_exceeded = "Error: Cgroups v2 Resource Quota Exceeded"
status_to_string err_invalid_sandbox_id = "Error: Invalid or Non-Existent Sandbox ID"
status_to_string err_tap_interface_creation_failed = "Error: TAP Network Interface Creation Failed"
status_to_string err_unknown = "Error: Unknown Runtime Failure"

-- An exception keeps its status and the message that the constructor formats.
pub record AegisException : Type 0 where
  pub status : Status
  pub message : String

unfoldable pub aegis_exception : Status → String → AegisException
unfolding status_code
aegis_exception s text = record {
  status = s;
  message = append "[AEGIS-" (append (decimal (status_code s)) (append "] " text));
}

pub data RuntimeEnvironment : Type 0 where
  unspecified python311 bash node_js : RuntimeEnvironment

pub data SandboxState : Type 0 where
  initializing prewarmed running terminating terminated violated : SandboxState

pub record SandboxMetadata : Type 0 where
  pub sandbox_id : String
  pub environment : RuntimeEnvironment
  pub state : SandboxState
  pub vcpus : ℕ
  pub memory_mb : ℕ
  pub vram_mb : ℕ
  pub boot_time_ns : ℕ
  pub guest_ip : String
  pub tap_device_name : String

pub record Version : Type 0 where
  pub major : ℕ
  pub minor : ℕ
  pub patch : ℕ

unfoldable pub to_string : Version → String
to_string v =
    append (decimal v.major) (append "." (append (decimal v.minor) (append "." (decimal v.patch))))

abbrev pub get_version : Version
get_version = record { major = 0; minor = 1; patch = 0 }
