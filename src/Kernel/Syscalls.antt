-- ===== src/Kernel/Syscalls.antt =====
-- ebpf/sys_filter.bpf.c.
use aegis_sandbox.Prelude.{ℕ, Bool, true, false, Option, none, some, List, if◌then◌else◌}
use aegis_sandbox.Kernel.Tasks.{Task, KernelMaps, is_nonzero, is_one, low_half, high_half}

-- `struct security_event`
pub record SecurityEvent : Type 0 where
  pub timestamp_ns : ℕ
  pub pid : ℕ
  pub tgid : ℕ
  pub cgroup_id : ℕ
  pub syscall_nr : ℕ
  pub comm : List ℕ
  pub action_taken : ℕ

-- What a run of the program does: whether it sends SIGKILL, and the event that it submits.
pub record SyscallOutcome : Type 0 where
  pub killed : Bool
  pub submitted : Option SecurityEvent

unfoldable pub security_event : Task → ℕ → SecurityEvent
unfolding low_half high_half
security_event task syscall_nr = record {
  timestamp_ns = task.ktime_ns;
  pid = high_half task.pid_tgid;
  tgid = low_half task.pid_tgid;
  cgroup_id = low_half task.cgroup_id;
  syscall_nr = syscall_nr;
  comm = task.comm;
  action_taken = 1;
}

-- The body of the second `if`.
unfoldable pub kill_syscall : Task → ℕ → SyscallOutcome
kill_syscall task syscall_nr = record {
  killed = true;
  submitted = if task.has_room then some (security_event task syscall_nr) else none;
}

abbrev pub passed : SyscallOutcome
passed = record { killed = false; submitted = none }

-- `id` is `ctx->id`.
unfoldable pub handle_sys_enter : KernelMaps → Task → ℕ → SyscallOutcome
unfolding is_nonzero is_one low_half
handle_sys_enter maps task id =
    if is_nonzero (maps.monitored_cgroups task.cgroup_id)
    then if is_one (maps.syscall_policy (low_half id))
      then kill_syscall task (low_half id)
      else passed
    else passed
