-- ===== src/Tests/Kernel.antt =====
-- The kernel programs at concrete inputs.
use aegis_sandbox.Prelude.{
  ℕ, ◌+◌, ◌*◌, ◌<◌, ◌≤◌, List, length, All, ◌/◌, ◌%◌, ◌^◌, ◌≡◌, ◌↔◌, ◌⊎◌, refl, true, none, some,
  [], ◌∷◌, ◌++◌, ◌==◌, if◌then◌else◌, arith,
}
use aegis_sandbox.Policy.Engine.{metadata_ip, inet_addr}
use aegis_sandbox.Ebpf.RingBuffer.{
  SecuritySyscallEvent, SecurityProcessEvent, syscall_event, process_event, RingBufferReader,
  ring_buffer_reader, raw_sample_callback,
}
use aegis_sandbox.Kernel.Tasks.{Task, KernelMaps, is_nonzero, is_one, low_half}
use aegis_sandbox.Kernel.Syscalls.{SecurityEvent, kill_syscall, handle_sys_enter}
use aegis_sandbox.Kernel.Network.{
  is_blocked, reject_connect, NetSecurityEvent, SockAddr, af_inet, aegis_cgroup_connect4,
  aegis_cgroup_connect4_iff,
}
use aegis_sandbox.Kernel.Execs.{
  ProcessExecEvent, filename_of, handle_execve_enter, handle_execve_enter_iff,
}
use aegis_sandbox.Kernel.Reports.{
  security_event_bytes, process_exec_event_bytes, TaskFits, handle_sys_enter_reported,
  handle_execve_enter_reported,
}
use aegis_sandbox.Kernel.Misreports.{net_security_event_bytes, aegis_cgroup_connect4_misreported}

-- "py" of the owner 0, in the cgroup of the sandbox.
abbrev pub task : Task
task = record {
  cgroup_id = 77;
  pid_tgid = 4242 * 2 ^ 32 + 4243;
  uid_gid = 0;
  ktime_ns = 1000000;
  parent_tgid = 4241;
  comm = 112 ∷ 121 ∷ [];
  has_room = true;
}

task_fits : TaskFits task
task_fits = record {
  ids = omega arith;
  owners = omega arith;
  time = omega arith;
  parent = omega arith;
  name = omega arith;
  name_text = (omega arith, (omega arith, tt));
}

-- Monitors the cgroup, blocks ptrace, and no address.
abbrev guarded : KernelMaps
guarded = record {
  monitored_cgroups = λ k. if k == 77 then some 1 else none;
  syscall_policy = λ k. if k == 101 then some 1 else some 0;
  blocked_ips = λ k. none;
  monitored_cgroups_proc = λ k. if k == 77 then some 1 else none;
}

abbrev pub to_metadata : SockAddr
to_metadata = record { family = 2; user_ip4 = 4272553641; user_port = 20480; protocol = 6 }

pub metadata_swapped : 4272553641 ≡ metadata_ip
unfolding metadata_ip inet_addr
metadata_swapped = refl

aegis_cgroup_connect4_iff_example :
    let r = aegis_cgroup_connect4 (λ n. 4272553641) guarded task to_metadata in
    ((r.verdict ≡ 0)
      ↔ ((2 ≡ af_inet) × ((4272553641 ≡ metadata_ip) ⊎ (guarded.blocked_ips 4272553641 ≡ some 1))))
    × ((e : NetSecurityEvent) → r.submitted ≡ some e → (r.verdict ≡ 0) × (e.dst_ip ≡ 4272553641))
aegis_cgroup_connect4_iff_example =
    aegis_cgroup_connect4_iff (λ n. 4272553641) guarded task to_metadata metadata_swapped

handle_execve_enter_iff_example :
    let r = handle_execve_enter guarded task none in
    ((r.killed ≡ true) ↔ (
      (is_nonzero (guarded.monitored_cgroups_proc 77) ≡ true) × (low_half 0 ≡ 0) × (true ≡ true)))
    × (r.killed ≡ true
        → (e : ProcessExecEvent) × (r.submitted ≡ some e) × (e.action_taken ≡ 1) × (e.uid ≡ 0))
handle_execve_enter_iff_example = handle_execve_enter_iff guarded task none

abbrev listening : RingBufferReader
listening = record ring_buffer_reader { ring_buf = some 4; has_callback = true }

ptrace_killed : (handle_sys_enter guarded task 101).killed ≡ true
unfolding handle_sys_enter kill_syscall is_nonzero is_one low_half
ptrace_killed = refl

handle_sys_enter_reported_example :
    (e : SecurityEvent) × ((handle_sys_enter guarded task 101).submitted ≡ some e)
    × (raw_sample_callback (security_event_bytes e) listening ≡ record listening {
      received =
          []
          ++ syscall_event (record {
            timestamp_ns = 1000000;
            pid = task.pid_tgid / 2 ^ 32;
            tgid = task.pid_tgid % 2 ^ 32;
            cgroup_id = task.cgroup_id % 2 ^ 32;
            syscall_nr = 101 % 2 ^ 32;
            comm = task.comm;
            action_taken = 1;
          })
            ∷ [];
    })
handle_sys_enter_reported_example =
    handle_sys_enter_reported guarded task 101 listening refl task_fits refl ptrace_killed

watched_execs : is_nonzero (guarded.monitored_cgroups_proc task.cgroup_id) ≡ true
unfolding is_nonzero
watched_execs = refl

abbrev path : List ℕ
path = 47 ∷ 120 ∷ []

short_path : length (filename_of (some path)) ≤ 255
unfolding filename_of
short_path = omega arith

path_text : All (λ c. 0 < c) (filename_of (some path))
unfolding filename_of
path_text = (omega arith, (omega arith, tt))

handle_execve_enter_reported_example :
    (e : ProcessExecEvent) × ((handle_execve_enter guarded task (some path)).submitted ≡ some e)
    × (r : SecurityProcessEvent) × (raw_sample_callback (process_exec_event_bytes e) listening
        ≡ record listening { received = [] ++ process_event r ∷ [] })
    × (r.filename ≡ filename_of (some path))
    × (r.uid ≡ task.uid_gid % 2 ^ 32)
    × (r.is_privilege_escalation ≡ (task.uid_gid % 2 ^ 32 == 0))
    × (r.action_taken ≡ (if task.uid_gid % 2 ^ 32 == 0 then 1 else 0))
handle_execve_enter_reported_example =
    handle_execve_enter_reported guarded task (some path) listening refl task_fits short_path
      path_text watched_execs refl

metadata_rejected : (aegis_cgroup_connect4 (λ n. 4272553641) guarded task to_metadata).verdict ≡ 0
unfolding aegis_cgroup_connect4 is_blocked reject_connect
metadata_rejected = refl

aegis_cgroup_connect4_misreported_example :
    (e : NetSecurityEvent) × ((aegis_cgroup_connect4
        (λ n. 4272553641)
        guarded
        task
        to_metadata).submitted
      ≡ some e)
    × (s : SecuritySyscallEvent) × (raw_sample_callback (net_security_event_bytes e) listening
        ≡ record listening { received = [] ++ syscall_event s ∷ [] })
    × (s.syscall_nr ≡ 4272553641)
aegis_cgroup_connect4_misreported_example =
    aegis_cgroup_connect4_misreported (λ n. 4272553641) guarded task to_metadata listening refl
      (omega arith) refl metadata_rejected
