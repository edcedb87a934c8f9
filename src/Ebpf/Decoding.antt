-- ===== src/Ebpf/Decoding.antt =====
-- What the reader makes of the samples that the kernel programs submit: the bytes of a struct as the
-- kernel lays it out, and the event that the callback gets for them.
use aegis_sandbox.Prelude.{
  ℕ, ◌<◌, ◌≤◌, ◌^◌, ◌≡◌, ◌≢◌, refl, ap, some, List, [], ◌∷◌, ◌++◌, length, length-append, take,
  drop, All, arith,
}
use aegis_sandbox.Ebpf.Layout.{
  sizeof, to_le, from_le, from_le-to_le, field, number, c_string, pad, length-pad, c_string-pad,
  take-pad, drop-pad,
}
use aegis_sandbox.Ebpf.RingBuffer.{
  SecuritySyscallEvent, SecurityNetworkEvent, syscall_event, network_event, raw_syscall_event,
  raw_network_event, raw_process_event, read_syscall_event, decode_event,
}

-- The bytes of an event of the syscall filter, with the padding behind it.
unfoldable pub syscall_bytes : SecuritySyscallEvent → List ℕ
syscall_bytes e =
    to_le 8 e.timestamp_ns
    ++ (to_le 4 e.pid
        ++ (to_le 4 e.tgid
            ++ (to_le 4 e.cgroup_id
                ++ (to_le 4 e.syscall_nr
                    ++ (pad 16 e.comm ++ (e.action_taken ∷ 0 ∷ 0 ∷ 0 ∷ 0 ∷ 0 ∷ 0 ∷ 0 ∷ []))))))

-- Those of the network filter.
unfoldable pub network_bytes : SecurityNetworkEvent → List ℕ
network_bytes e =
    to_le 8 e.timestamp_ns
    ++ (to_le 4 e.pid
        ++ (to_le 4 e.tgid
            ++ (to_le 4 e.cgroup_id
                ++ (to_le 4 e.dst_ip_network_order
                    ++ (to_le 2 e.dst_port
                        ++ (e.protocol
                            ∷ e.action_taken
                            ∷ (pad 16 e.comm ++ (0 ∷ 0 ∷ 0 ∷ 0 ∷ []))))))))

pub sizes :
    (sizeof raw_syscall_event ≡ 48)
    × (sizeof raw_network_event ≡ 48)
    × (sizeof raw_process_event ≡ 312)
unfolding sizeof raw_syscall_event raw_network_event raw_process_event
sizes = (refl, refl, refl)

-- The two smaller structs have one size, and the first test of the size takes both: no sample of
-- whatever content is decoded as a network event.
pub decode_event-ne-network :
    (raw : List ℕ) (e : SecurityNetworkEvent) → decode_event raw ≢ some (network_event e)
unfolding decode_event
decode_event-ne-network raw e h = ground (arith, sizes)

-- A sample as the kernel lays it out: the members fit their widths and the name fits 16 characters.
pub record SyscallFits (e : SecuritySyscallEvent) : Type 0 where
  pub timestamp : e.timestamp_ns < 256 ^ 8
  pub pid : e.pid < 256 ^ 4
  pub tgid : e.tgid < 256 ^ 4
  pub cgroup_id : e.cgroup_id < 256 ^ 4
  pub syscall_nr : e.syscall_nr < 256 ^ 4
  pub comm : length e.comm ≤ 16
  pub comm_text : All (λ c. 0 < c) e.comm

length-syscall_bytes : (e : SecuritySyscallEvent) → length (syscall_bytes e) ≡ 48
unfolding syscall_bytes to_le
length-syscall_bytes e = omega (
  arith,
  length-append (pad 16 e.comm) (e.action_taken ∷ 0 ∷ 0 ∷ 0 ∷ 0 ∷ 0 ∷ 0 ∷ 0 ∷ []),
  length-pad 16 e.comm,
)

read-syscall_bytes :
    (e : SecuritySyscallEvent) → SyscallFits e → read_syscall_event (syscall_bytes e) ≡ e
unfolding read_syscall_event syscall_bytes number field to_le from_le
read-syscall_bytes e f = λ i. record {
  timestamp_ns = from_le-to_le 8 e.timestamp_ns f.timestamp i;
  pid = from_le-to_le 4 e.pid f.pid i;
  tgid = from_le-to_le 4 e.tgid f.tgid i;
  cgroup_id = from_le-to_le 4 e.cgroup_id f.cgroup_id i;
  syscall_nr = from_le-to_le 4 e.syscall_nr f.syscall_nr i;
  comm = comm i;
  action_taken = action i;
}
  where
    tail : List ℕ
    tail = e.action_taken ∷ 0 ∷ 0 ∷ 0 ∷ 0 ∷ 0 ∷ 0 ∷ 0 ∷ []

    comm : c_string (take 16 (pad 16 e.comm ++ tail)) ≡ e.comm
    comm = rw (take-pad 16 e.comm tail) (c_string-pad 16 e.comm f.comm f.comm_text)

    action : from_le (take 1 (drop 16 (pad 16 e.comm ++ tail))) ≡ e.action_taken
    action = rw (drop-pad 16 e.comm tail) (omega arith)

-- The callback gets the event that the kernel submitted.
pub decode_event-syscall_bytes :
    (e : SecuritySyscallEvent)
    → SyscallFits e
    → decode_event (syscall_bytes e) ≡ some (syscall_event e)
unfolding decode_event
decode_event-syscall_bytes e f =
    rw (length-syscall_bytes e, sizes.0) (ap (λ s. some (syscall_event s)) (read-syscall_bytes e f))

length-network_bytes : (e : SecurityNetworkEvent) → length (network_bytes e) ≡ 48
unfolding network_bytes to_le
length-network_bytes e =
    omega (arith, length-append (pad 16 e.comm) (0 ∷ 0 ∷ 0 ∷ 0 ∷ []), length-pad 16 e.comm)

-- The callback gets a blocked connection as a syscall event whose syscall number is the destination
-- address.
pub network_sample_misread :
    (e : SecurityNetworkEvent)
    → e.dst_ip_network_order < 256 ^ 4
    → (s : SecuritySyscallEvent) × (decode_event (network_bytes e) ≡ some (syscall_event s))
      × (s.syscall_nr ≡ e.dst_ip_network_order)
unfolding decode_event
network_sample_misread e h =
    (read_syscall_event (network_bytes e), rw (length-network_bytes e, sizes.0) refl, destination)
  where
    destination : (read_syscall_event (network_bytes e)).syscall_nr ≡ e.dst_ip_network_order
    destination =
        unfold read_syscall_event network_bytes number field to_le from_le in
        from_le-to_le 4 e.dst_ip_network_order h
