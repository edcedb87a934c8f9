-- ===== src/Ebpf/Variants.antt =====
-- Which alternative of the event type a sample becomes, by its size.
use aegis_sandbox.Prelude.{ℕ, ◌≡◌, ◌≢◌, ◌↔◌, some, List, arith, length}
use aegis_sandbox.Ebpf.RingBuffer.{
  SecuritySyscallEvent, SecurityNetworkEvent, SecurityProcessEvent, syscall_event, network_event,
  process_event, read_syscall_event, read_process_event, decode_event,
}
use aegis_sandbox.Ebpf.Decoding.{sizes, decode_event-ne-network}

-- A sample becomes a syscall event exactly if it has 48 bytes and a process event exactly if it has 312;
-- none ever becomes a network event.
pub decode_event_variant :
    (raw : List ℕ)
    → (((s : SecuritySyscallEvent) × (decode_event raw ≡ some (syscall_event s)))
        ↔ (length raw ≡ 48))
      × (((p : SecurityProcessEvent) × (decode_event raw ≡ some (process_event p)))
          ↔ (length raw ≡ 312))
      × ((e : SecurityNetworkEvent) → decode_event raw ≢ some (network_event e))
unfolding decode_event
decode_event_variant raw = (
  (λ (s, h). ground (arith, h, sizes), λ h. (read_syscall_event raw, ground (arith, h, sizes))),
  (λ (p, h). ground (arith, h, sizes), λ h. (read_process_event raw, ground (arith, h, sizes))),
  decode_event-ne-network raw,
)
