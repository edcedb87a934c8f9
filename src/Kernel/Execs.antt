-- ===== src/Kernel/Execs.antt =====
-- ebpf/process_monitor.bpf.c.
use aegis_sandbox.Prelude.{
  ℕ, ◌≡◌, ◌↔◌, Bool, true, false, not, Option, none, some, List, [], ◌==◌, if◌then◌else◌, arith,
}
use aegis_sandbox.Kernel.Tasks.{Task, KernelMaps, is_nonzero, low_half, high_half}

-- `struct process_exec_event`
pub record ProcessExecEvent : Type 0 where
  pub timestamp_ns : ℕ
  pub pid : ℕ
  pub tgid : ℕ
  pub ppid : ℕ
  pub cgroup_id : ℕ
  pub uid : ℕ
  pub gid : ℕ
  pub is_privilege_escalation : ℕ
  pub action_taken : ℕ
  pub comm : List ℕ
  pub filename : List ℕ

-- What a run of the program does.
pub record ExecOutcome : Type 0 where
  pub killed : Bool
  pub submitted : Option ProcessExecEvent

-- The text at `ctx->filename`, if the pointer is not null.
unfoldable pub filename_of : Option (List ℕ) → List ℕ
filename_of none = []
filename_of (some path) = path

-- The event with its members as they stand when it is submitted.
unfoldable pub process_exec_event : Task → Option (List ℕ) → ProcessExecEvent
unfolding low_half high_half filename_of
process_exec_event task filename = record {
  timestamp_ns = task.ktime_ns;
  pid = high_half task.pid_tgid;
  tgid = low_half task.pid_tgid;
  ppid = task.parent_tgid;
  cgroup_id = low_half task.cgroup_id;
  uid = low_half task.uid_gid;
  gid = high_half task.uid_gid;
  is_privilege_escalation = if low_half task.uid_gid == 0 then 1 else 0;
  action_taken = if low_half task.uid_gid == 0 then 1 else 0;
  comm = task.comm;
  filename = filename_of filename;
}

abbrev unseen : ExecOutcome
unseen = record { killed = false; submitted = none }

unfoldable pub report_exec : ProcessExecEvent → ExecOutcome
report_exec event = record {
  killed = not (event.is_privilege_escalation == 0);
  submitted = some event;
}

unfoldable pub handle_execve_enter : KernelMaps → Task → Option (List ℕ) → ExecOutcome
unfolding is_nonzero
handle_execve_enter maps task filename =
    if is_nonzero (maps.monitored_cgroups_proc task.cgroup_id)
    then if task.has_room then report_exec (process_exec_event task filename) else unseen
    else unseen

-- An execve is killed exactly when its cgroup is monitored, its user id is 0 and the ring buffer has
-- room for the event; each kill is reported, with the action that it takes.
pub handle_execve_enter_iff :
    (maps : KernelMaps) (task : Task) (filename : Option (List ℕ))
    → let r = handle_execve_enter maps task filename in
      ((r.killed ≡ true) ↔ (
        (is_nonzero (maps.monitored_cgroups_proc task.cgroup_id) ≡ true)
        × (low_half task.uid_gid ≡ 0)
        × (task.has_room ≡ true)))
      × (r.killed ≡ true
          → (e : ProcessExecEvent) × (r.submitted ≡ some e) × (e.action_taken ≡ 1) × (e.uid ≡ 0))
unfolding handle_execve_enter report_exec process_exec_event
handle_execve_enter_iff maps task filename = (
  (λ h. (ground arith, ground arith, ground arith), λ h. ground arith),
  λ h. (process_exec_event task filename, ground arith, ground arith, ground arith),
)
