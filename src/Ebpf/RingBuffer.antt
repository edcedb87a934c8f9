-- ===== src/Ebpf/RingBuffer.antt =====
-- include/aegis/ebpf/ring_buffer_reader.hpp and src/ebpf/ring_buffer_reader.cpp: the events, how a
-- sample of the ring buffer is decoded into one, and the reader that hands them to a callback.
use aegis_sandbox.Prelude.{
  ℕ, ◌≡◌, refl, Bool, true, false, not, ◌||◌, Option, none, some, List, [], ◌∷◌, ◌++◌, ◌==◌,
  if◌then◌else◌, length,
}
use aegis_sandbox.Prelude.Int.{ℤ, is_neg, minus_one}
use aegis_sandbox.Core.{Status, success, err_ebpf_probe_load_failed}
use aegis_sandbox.Ebpf.Layout.{Member, unsigned, chars, offsets, sizeof, field, number, c_string}

-- A text is the list of its bytes.
pub record SecuritySyscallEvent : Type 0 where
  pub timestamp_ns : ℕ
  pub pid : ℕ
  pub tgid : ℕ
  pub cgroup_id : ℕ
  pub syscall_nr : ℕ
  pub comm : List ℕ
  pub action_taken : ℕ

pub record SecurityNetworkEvent : Type 0 where
  pub timestamp_ns : ℕ
  pub pid : ℕ
  pub tgid : ℕ
  pub cgroup_id : ℕ
  pub dst_ip_network_order : ℕ
  pub dst_port : ℕ
  pub protocol : ℕ
  pub action_taken : ℕ
  pub comm : List ℕ

pub record SecurityProcessEvent : Type 0 where
  pub timestamp_ns : ℕ
  pub pid : ℕ
  pub tgid : ℕ
  pub ppid : ℕ
  pub cgroup_id : ℕ
  pub uid : ℕ
  pub gid : ℕ
  pub is_privilege_escalation : Bool
  pub action_taken : ℕ
  pub comm : List ℕ
  pub filename : List ℕ

pub data SecurityEventVariant : Type 0 where
  syscall_event : SecuritySyscallEvent → SecurityEventVariant
  network_event : SecurityNetworkEvent → SecurityEventVariant
  process_event : SecurityProcessEvent → SecurityEventVariant

-- The members of the three structs of the kernel programs, in order.
unfoldable pub raw_syscall_event : List Member
raw_syscall_event =
    unsigned 8 ∷ unsigned 4 ∷ unsigned 4 ∷ unsigned 4 ∷ unsigned 4 ∷ chars 16 ∷ unsigned 1 ∷ []

unfoldable pub raw_network_event : List Member
raw_network_event =
    unsigned 8
    ∷ unsigned 4
    ∷ unsigned 4
    ∷ unsigned 4
    ∷ unsigned 4
    ∷ unsigned 2
    ∷ unsigned 1
    ∷ unsigned 1
    ∷ chars 16
    ∷ []

unfoldable pub raw_process_event : List Member
raw_process_event =
    unsigned 8
    ∷ unsigned 4
    ∷ unsigned 4
    ∷ unsigned 4
    ∷ unsigned 4
    ∷ unsigned 4
    ∷ unsigned 4
    ∷ unsigned 1
    ∷ unsigned 1
    ∷ chars 16
    ∷ chars 256
    ∷ []

syscall_offsets : offsets raw_syscall_event ≡ 0 ∷ 8 ∷ 12 ∷ 16 ∷ 20 ∷ 24 ∷ 40 ∷ []
unfolding offsets raw_syscall_event
syscall_offsets = refl

network_offsets : offsets raw_network_event ≡ 0 ∷ 8 ∷ 12 ∷ 16 ∷ 20 ∷ 24 ∷ 26 ∷ 27 ∷ 28 ∷ []
unfolding offsets raw_network_event
network_offsets = refl

process_offsets :
    offsets raw_process_event ≡ 0 ∷ 8 ∷ 12 ∷ 16 ∷ 20 ∷ 24 ∷ 28 ∷ 32 ∷ 33 ∷ 34 ∷ 50 ∷ []
unfolding offsets raw_process_event
process_offsets = refl

-- The members of a sample, at the offsets above.
unfoldable pub read_syscall_event : List ℕ → SecuritySyscallEvent
read_syscall_event raw = record {
  timestamp_ns = number 0 8 raw;
  pid = number 8 4 raw;
  tgid = number 12 4 raw;
  cgroup_id = number 16 4 raw;
  syscall_nr = number 20 4 raw;
  comm = c_string (field 24 16 raw);
  action_taken = number 40 1 raw;
}

unfoldable pub read_network_event : List ℕ → SecurityNetworkEvent
read_network_event raw = record {
  timestamp_ns = number 0 8 raw;
  pid = number 8 4 raw;
  tgid = number 12 4 raw;
  cgroup_id = number 16 4 raw;
  dst_ip_network_order = number 20 4 raw;
  dst_port = number 24 2 raw;
  protocol = number 26 1 raw;
  action_taken = number 27 1 raw;
  comm = c_string (field 28 16 raw);
}

unfoldable pub read_process_event : List ℕ → SecurityProcessEvent
read_process_event raw = record {
  timestamp_ns = number 0 8 raw;
  pid = number 8 4 raw;
  tgid = number 12 4 raw;
  ppid = number 16 4 raw;
  cgroup_id = number 20 4 raw;
  uid = number 24 4 raw;
  gid = number 28 4 raw;
  is_privilege_escalation = not (number 32 1 raw == 0);
  action_taken = number 33 1 raw;
  comm = c_string (field 34 16 raw);
  filename = c_string (field 50 256 raw);
}

-- The event that `dispatch_event` hands to the callback for a sample, if any.
unfoldable pub decode_event : List ℕ → Option SecurityEventVariant
decode_event raw =
    if length raw == sizeof raw_syscall_event
    then some (syscall_event (read_syscall_event raw))
    else if length raw == sizeof raw_network_event
    then some (network_event (read_network_event raw))
    else if length raw == sizeof raw_process_event
    then some (process_event (read_process_event raw))
    else none

-- A reader, with the events that its callback was called with, the oldest first.
pub record RingBufferReader : Type 0 where
  pub ring_buf : Option ℕ
  pub has_callback : Bool
  pub is_polling : Bool
  pub thread_joinable : Bool
  pub received : List SecurityEventVariant

-- The constructor.
abbrev pub ring_buffer_reader : RingBufferReader
ring_buffer_reader = record {
  ring_buf = none;
  has_callback = false;
  is_polling = false;
  thread_joinable = false;
  received = [];
}

-- `manager` is what `ring_buffer__new` returns.
unfoldable pub init : ℤ → Bool → Option ℕ → RingBufferReader → RingBufferReader × Status
init map_fd callback manager r =
    if is_neg map_fd || not callback
    then (r, err_ebpf_probe_load_failed)
    else (record r { has_callback = true; ring_buf = manager }, created manager)
  where
    created : Option ℕ → Status
    created none = err_ebpf_probe_load_failed
    created (some m) = success

deliver : Option SecurityEventVariant → RingBufferReader → RingBufferReader
deliver none r = r
deliver (some e) r = record r { received = r.received ++ e ∷ [] }

unfoldable pub dispatch_event : List ℕ → RingBufferReader → RingBufferReader
unfolding deliver
dispatch_event raw r = if r.has_callback then deliver (decode_event raw) r else r

-- An empty sample is passed over; `ctx` is the reader and `data` is not null.
unfoldable pub raw_sample_callback : List ℕ → RingBufferReader → RingBufferReader
raw_sample_callback raw r = if length raw == 0 then r else dispatch_event raw r

unfoldable pub consume_samples : List (List ℕ) → RingBufferReader → RingBufferReader
consume_samples [] r = r
consume_samples (raw ∷ rest) r = consume_samples rest (raw_sample_callback raw r)

-- `ring_buffer__poll` calls back for each sample that is there, and returns `err`.
unfoldable pub poll : List (List ℕ) → ℤ → RingBufferReader → RingBufferReader × ℤ
poll samples err r = elim r.ring_buf [
  | none ↦ (r, minus_one)
  | some b ↦ (consume_samples samples r, err)
]

unfoldable pub start_polling : RingBufferReader → RingBufferReader × Status
start_polling r = elim r.ring_buf [
  | none ↦ (r, err_ebpf_probe_load_failed)
  | some b ↦
      if r.is_polling
      then (r, err_ebpf_probe_load_failed)
      else (record r { is_polling = true; thread_joinable = true }, success)
]

-- `exchange(false)`, and the join of the thread that the flag lets end.
unfoldable pub stop_polling : RingBufferReader → RingBufferReader
stop_polling r =
    if r.is_polling then record r { is_polling = false; thread_joinable = false } else r
