-- ===== src/Kernel/Misreports.antt =====
-- From ebpf/net_filter.bpf.c to the callback: the events of rejected connections, through their bytes and
-- the reader.
use aegis_sandbox.Prelude.{ℕ, ◌^◌, ◌<◌, ◌≡◌, true, some, List, [], ◌∷◌, ◌++◌, arith}
use aegis_sandbox.Ebpf.RingBuffer.{
  SecuritySyscallEvent, SecurityNetworkEvent, syscall_event, RingBufferReader, raw_sample_callback,
}
use aegis_sandbox.Ebpf.Delivery.{callback-decoded}
use aegis_sandbox.Ebpf.Decoding.{network_bytes, network_sample_misread}
use aegis_sandbox.Kernel.Tasks.{Task, KernelMaps}
use aegis_sandbox.Kernel.Network.{
  NetSecurityEvent, SockAddr, net_security_event, reject_connect, aegis_cgroup_connect4,
}

abbrev as_network_event : NetSecurityEvent → SecurityNetworkEvent
as_network_event e = record {
  timestamp_ns = e.timestamp_ns;
  pid = e.pid;
  tgid = e.tgid;
  cgroup_id = e.cgroup_id;
  dst_ip_network_order = e.dst_ip;
  dst_port = e.dst_port;
  protocol = e.proto;
  action_taken = e.action_taken;
  comm = e.comm;
}

-- The bytes that are submitted.
pub net_security_event_bytes : NetSecurityEvent → List ℕ
net_security_event_bytes e = network_bytes (as_network_event e)

-- A rejected connection that finds room in the ring buffer is submitted, and a reader with a callback that is
-- given the sample calls back once, with the event of a syscall whose number is the address of
-- the destination.
pub aegis_cgroup_connect4_misreported :
    (hltonl : ℕ → ℕ) (maps : KernelMaps) (task : Task) (ctx : SockAddr) (reader : RingBufferReader)
    → reader.has_callback ≡ true
    → ctx.user_ip4 < 2 ^ 32
    → task.has_room ≡ true
    → (aegis_cgroup_connect4 hltonl maps task ctx).verdict ≡ 0
    → (e : NetSecurityEvent) × ((aegis_cgroup_connect4 hltonl maps task ctx).submitted ≡ some e)
      × (s : SecuritySyscallEvent) × (raw_sample_callback (net_security_event_bytes e) reader
          ≡ record reader { received = reader.received ++ syscall_event s ∷ [] })
      × (s.syscall_nr ≡ ctx.user_ip4)
unfolding aegis_cgroup_connect4 reject_connect net_security_event net_security_event_bytes
aegis_cgroup_connect4_misreported hltonl maps task ctx reader listening h room rejected =
    let e : NetSecurityEvent = net_security_event task ctx in
    let (s, decoded, number) = network_sample_misread (as_network_event e) (omega arith) in
    (
      e,
      ground arith,
      s,
      callback-decoded (net_security_event_bytes e) (syscall_event s) reader listening decoded,
      number,
    )
