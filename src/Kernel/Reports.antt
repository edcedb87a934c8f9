-- ===== src/Kernel/Reports.antt =====
-- From the kernel to the callback: the events that the programs submit, through their bytes and the
-- reader.
use aegis_sandbox.Prelude.{
  ℕ, ◌/◌, ◌%◌, ◌^◌, ◌<◌, ◌≤◌, ◌≡◌, refl, true, not, Option, some, List, [], ◌∷◌, ◌++◌, length, All,
  ◌==◌, if◌then◌else◌, arith,
}
use aegis_sandbox.Ebpf.RingBuffer.{
  SecuritySyscallEvent, SecurityProcessEvent, syscall_event, process_event, RingBufferReader,
  raw_sample_callback,
}
use aegis_sandbox.Ebpf.Decoding.{syscall_bytes, SyscallFits, decode_event-syscall_bytes}
use aegis_sandbox.Ebpf.Delivery.{callback-decoded}
use aegis_sandbox.Ebpf.Processes.{process_bytes, ProcessFits, decode_event-process_bytes}
use aegis_sandbox.Kernel.Tasks.{Task, KernelMaps, is_nonzero, low_half, high_half}
use aegis_sandbox.Kernel.Syscalls.{SecurityEvent, security_event, kill_syscall, handle_sys_enter}
use aegis_sandbox.Kernel.Execs.{
  ProcessExecEvent, process_exec_event, report_exec, handle_execve_enter, filename_of,
}

-- The structs of the programs have the members of the reader's, in the same order.
abbrev as_syscall_event : SecurityEvent → SecuritySyscallEvent
as_syscall_event e = record {
  timestamp_ns = e.timestamp_ns;
  pid = e.pid;
  tgid = e.tgid;
  cgroup_id = e.cgroup_id;
  syscall_nr = e.syscall_nr;
  comm = e.comm;
  action_taken = e.action_taken;
}

abbrev as_process_event : ProcessExecEvent → SecurityProcessEvent
as_process_event e = record {
  timestamp_ns = e.timestamp_ns;
  pid = e.pid;
  tgid = e.tgid;
  ppid = e.ppid;
  cgroup_id = e.cgroup_id;
  uid = e.uid;
  gid = e.gid;
  is_privilege_escalation = not (e.is_privilege_escalation == 0);
  action_taken = e.action_taken;
  comm = e.comm;
  filename = e.filename;
}

-- The bytes that are submitted.
pub security_event_bytes : SecurityEvent → List ℕ
security_event_bytes e = syscall_bytes (as_syscall_event e)

pub process_exec_event_bytes : ProcessExecEvent → List ℕ
process_exec_event_bytes e = process_bytes (as_process_event e)

-- The helpers' answers are numbers of their widths, and a name of at most 15 characters and a NUL.
pub record TaskFits (task : Task) : Type 0 where
  pub ids : task.pid_tgid < 2 ^ 64
  pub owners : task.uid_gid < 2 ^ 64
  pub time : task.ktime_ns < 2 ^ 64
  pub parent : task.parent_tgid < 2 ^ 32
  pub name : length task.comm ≤ 15
  pub name_text : All (λ c. 0 < c) task.comm

halves : (n : ℕ) → n < 2 ^ 64 → (low_half n < 256 ^ 4) × (high_half n < 256 ^ 4)
unfolding low_half high_half
halves n h = (omega arith, omega arith)

security_event-SyscallFits :
    (task : Task) (id : ℕ)
    → TaskFits task
    → SyscallFits (as_syscall_event (security_event task (low_half id)))
unfolding security_event low_half
security_event-SyscallFits task id f = record {
  timestamp = omega (arith, f.time);
  pid = (halves task.pid_tgid f.ids).1;
  tgid = (halves task.pid_tgid f.ids).0;
  cgroup_id = omega arith;
  syscall_nr = omega arith;
  comm = omega (arith, f.name);
  comm_text = f.name_text;
}

-- A reader with a callback that is given the sample of a syscall that is killed while the ring buffer has
-- room calls back once, with the number of the syscall, the
-- time and the name of the task, the low halves of the cgroup and of `pid_tgid`, the high half of
-- `pid_tgid` as the pid, and the action 1.
pub handle_sys_enter_reported :
    (maps : KernelMaps) (task : Task) (id : ℕ) (reader : RingBufferReader)
    → reader.has_callback ≡ true
    → TaskFits task
    → task.has_room ≡ true
    → (handle_sys_enter maps task id).killed ≡ true
    → (e : SecurityEvent) × ((handle_sys_enter maps task id).submitted ≡ some e)
      × (raw_sample_callback (security_event_bytes e) reader ≡ record reader {
        received =
            reader.received
            ++ syscall_event (record {
              timestamp_ns = task.ktime_ns;
              pid = task.pid_tgid / 2 ^ 32;
              tgid = task.pid_tgid % 2 ^ 32;
              cgroup_id = task.cgroup_id % 2 ^ 32;
              syscall_nr = id % 2 ^ 32;
              comm = task.comm;
              action_taken = 1;
            })
              ∷ [];
      })
unfolding handle_sys_enter kill_syscall security_event_bytes security_event low_half high_half
handle_sys_enter_reported maps task id reader listening f room killed = (
  security_event task (low_half id),
  ground arith,
  callback-decoded (syscall_bytes (as_syscall_event (security_event task (low_half id))))
      (syscall_event (as_syscall_event (security_event task (low_half id)))) reader listening
      (decode_event-syscall_bytes (as_syscall_event (security_event task (low_half id)))
        (security_event-SyscallFits task id f)),
)

process_exec_event-ProcessFits :
    (task : Task) (filename : Option (List ℕ))
    → TaskFits task
    → length (filename_of filename) ≤ 255
    → All (λ c. 0 < c) (filename_of filename)
    → ProcessFits (as_process_event (process_exec_event task filename))
unfolding process_exec_event low_half high_half
process_exec_event-ProcessFits task filename f short text = record {
  timestamp = omega (arith, f.time);
  pid = (halves task.pid_tgid f.ids).1;
  tgid = (halves task.pid_tgid f.ids).0;
  ppid = omega (arith, f.parent);
  cgroup_id = omega arith;
  uid = (halves task.uid_gid f.owners).0;
  gid = (halves task.uid_gid f.owners).1;
  comm = omega (arith, f.name);
  comm_text = f.name_text;
  filename = omega (arith, short);
  filename_text = text;
}

-- An execve in a monitored cgroup that finds room in the ring buffer is submitted, and a reader with a
-- callback that is given the sample calls back once, with the
-- path, the owner, and, exactly for the owner 0, the flag of a privilege escalation and the action 1.
pub handle_execve_enter_reported :
    (maps : KernelMaps) (task : Task) (filename : Option (List ℕ)) (reader : RingBufferReader)
    → reader.has_callback ≡ true
    → TaskFits task
    → length (filename_of filename) ≤ 255
    → All (λ c. 0 < c) (filename_of filename)
    → is_nonzero (maps.monitored_cgroups_proc task.cgroup_id) ≡ true
    → task.has_room ≡ true
    → (e : ProcessExecEvent) × ((handle_execve_enter maps task filename).submitted ≡ some e)
      × (r : SecurityProcessEvent) × (raw_sample_callback (process_exec_event_bytes e) reader
          ≡ record reader { received = reader.received ++ process_event r ∷ [] })
      × (r.filename ≡ filename_of filename)
      × (r.uid ≡ task.uid_gid % 2 ^ 32)
      × (r.is_privilege_escalation ≡ (task.uid_gid % 2 ^ 32 == 0))
      × (r.action_taken ≡ (if task.uid_gid % 2 ^ 32 == 0 then 1 else 0))
unfolding handle_execve_enter report_exec process_exec_event_bytes process_exec_event low_half
handle_execve_enter_reported maps task filename reader listening f short text watched room = (
  process_exec_event task filename,
  ground arith,
  as_process_event (process_exec_event task filename),
  callback-decoded (process_bytes (as_process_event (process_exec_event task filename)))
      (process_event (as_process_event (process_exec_event task filename))) reader listening
      (decode_event-process_bytes (as_process_event (process_exec_event task filename))
        (process_exec_event-ProcessFits task filename f short text)),
  refl,
  refl,
  ground arith,
  refl,
)
