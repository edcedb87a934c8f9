-- ===== src/Tests/Events.antt =====
-- The loader and the ring buffer at concrete inputs.
use aegis_sandbox.Prelude.{ℕ, ◌≡◌, ◌≢◌, ◌↔◌, length, refl, true, some, List, [], ◌∷◌, ◌++◌}
use aegis_sandbox.Prelude.Int.{pos}
use aegis_sandbox.Os.{Machine}
use aegis_sandbox.Ebpf.Loader.{EbpfLoader, ebpf_loader, detach_all}
use aegis_sandbox.Ebpf.RingBuffer.{
  SecuritySyscallEvent, SecurityNetworkEvent, SecurityProcessEvent, syscall_event, network_event,
  process_event, decode_event, RingBufferReader, ring_buffer_reader, poll,
}
use aegis_sandbox.Ebpf.Decoding.{syscall_bytes}
use aegis_sandbox.Ebpf.Processes.{process_bytes}
use aegis_sandbox.Ebpf.Delivery.{decoded, poll_delivers}
use aegis_sandbox.Ebpf.Variants.{decode_event_variant}
use aegis_sandbox.Ebpf.Resources.{
  Command, loads, attaches_tracepoint, attaches_connect4, monitors, run, total, makes_link,
  drops_link, opens_object, closes_object, detach_all_releases,
}
use aegis_sandbox.Tests.Machines.{quiet_os}

-- "py" calls ptrace.
abbrev traced : SecuritySyscallEvent
traced = record {
  timestamp_ns = 1000000;
  pid = 4242;
  tgid = 4242;
  cgroup_id = 77;
  syscall_nr = 101;
  comm = 112 ∷ 121 ∷ [];
  action_taken = 1;
}

-- "py" starts "/x".
abbrev started : SecurityProcessEvent
started = record {
  timestamp_ns = 1000000;
  pid = 4242;
  tgid = 4242;
  ppid = 1;
  cgroup_id = 77;
  uid = 0;
  gid = 0;
  is_privilege_escalation = true;
  action_taken = 1;
  comm = 112 ∷ 121 ∷ [];
  filename = 47 ∷ 120 ∷ [];
}

abbrev listening : RingBufferReader
listening = record ring_buffer_reader { ring_buf = some 3; has_callback = true }

abbrev samples : List (List ℕ)
samples = syscall_bytes traced ∷ (1 ∷ 2 ∷ []) ∷ process_bytes started ∷ []

poll_delivers_example :
    poll samples (pos 3) listening ≡ (record listening { received = [] ++ decoded samples }, pos 3)
poll_delivers_example = poll_delivers samples (pos 3) 3 listening refl refl

abbrev idle : Machine EbpfLoader
idle = record { state = ebpf_loader; trace = [] }

abbrev history : List Command
history =
    loads "/usr/lib/aegis/sys_filter.bpf.o"
    ∷ attaches_tracepoint "sys_enter_filter" "raw_syscalls" "sys_enter"
    ∷ attaches_connect4 "connect4" (pos 5)
    ∷ monitors 77 true
    ∷ []

detach_all_releases_example :
    (total (makes_link 2) (detach_all quiet_os (run quiet_os history idle)).1.trace
      ≡ total (drops_link 2) (detach_all quiet_os (run quiet_os history idle)).1.trace)
    × (total (opens_object 2) (detach_all quiet_os (run quiet_os history idle)).1.trace
        ≡ total (closes_object 2) (detach_all quiet_os (run quiet_os history idle)).1.trace)
detach_all_releases_example = detach_all_releases quiet_os 2 history (refl, (tt, (tt, (tt, tt))))

decode_event_variant_example :
    (((s : SecuritySyscallEvent) × (decode_event (syscall_bytes traced) ≡ some (syscall_event s)))
      ↔ (length (syscall_bytes traced) ≡ 48))
    × (((p : SecurityProcessEvent) × (decode_event (syscall_bytes traced) ≡ some (process_event p)))
        ↔ (length (syscall_bytes traced) ≡ 312))
    × ((e : SecurityNetworkEvent) → decode_event (syscall_bytes traced) ≢ some (network_event e))
decode_event_variant_example = decode_event_variant (syscall_bytes traced)
