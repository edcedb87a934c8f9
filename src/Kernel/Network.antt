-- ===== src/Kernel/Network.antt =====
-- ebpf/net_filter.bpf.c. `bpf_hltonl`, which the program calls and no header declares, is a parameter.
use aegis_sandbox.Prelude.{
  ℕ, ◌+◌, ◌*◌, ◌/◌, ◌%◌, ◌^◌, ◌≡◌, ◌↔◌, ◌⊎◌, inl, inr, Bool, true, Option, none, some, List,
  if◌then◌else◌, ◌==◌, Bool-cases, arith,
}
use aegis_sandbox.Policy.Engine.{metadata_ip}
use aegis_sandbox.Kernel.Tasks.{Task, KernelMaps, is_one, is_one_iff, low_half, high_half}

-- `struct net_security_event`
pub record NetSecurityEvent : Type 0 where
  pub timestamp_ns : ℕ
  pub pid : ℕ
  pub tgid : ℕ
  pub cgroup_id : ℕ
  pub dst_ip : ℕ
  pub dst_port : ℕ
  pub proto : ℕ
  pub action_taken : ℕ
  pub comm : List ℕ

-- The members of `struct bpf_sock_addr` that the program reads.
pub record SockAddr : Type 0 where
  pub family : ℕ
  pub user_ip4 : ℕ
  pub user_port : ℕ
  pub protocol : ℕ

abbrev pub af_inet : ℕ
af_inet = 2

-- `bpf_ntohs` of a 16-bit number, on a little-endian machine.
pub ntohs : ℕ → ℕ
ntohs n = n % 256 * 256 + n / 256

-- The result of the program, 1 to allow the connection, and the event that it submits.
pub record ConnectOutcome : Type 0 where
  pub verdict : ℕ
  pub submitted : Option NetSecurityEvent

unfoldable pub net_security_event : Task → SockAddr → NetSecurityEvent
unfolding low_half high_half ntohs
net_security_event task ctx = record {
  timestamp_ns = task.ktime_ns;
  pid = high_half task.pid_tgid;
  tgid = low_half task.pid_tgid;
  cgroup_id = low_half task.cgroup_id;
  dst_ip = ctx.user_ip4;
  dst_port = ntohs (ctx.user_port % 2 ^ 16);
  proto = ctx.protocol % 2 ^ 8;
  action_taken = 1;
  comm = task.comm;
}

abbrev pub allowed : ConnectOutcome
allowed = record { verdict = 1; submitted = none }

unfoldable pub reject_connect : Task → SockAddr → ConnectOutcome
reject_connect task ctx = record {
  verdict = 0;
  submitted = if task.has_room then some (net_security_event task ctx) else none;
}

module _ (hltonl : ℕ → ℕ) where
  -- `is_blocked`. 2851995134 is 0xA9FEA9FE.
  unfoldable pub is_blocked : KernelMaps → ℕ → Bool
  unfolding is_one
  is_blocked maps dst_ip =
      if dst_ip == hltonl 2851995134 then true else is_one (maps.blocked_ips dst_ip)

  unfoldable pub aegis_cgroup_connect4 : KernelMaps → Task → SockAddr → ConnectOutcome
  aegis_cgroup_connect4 maps task ctx =
      if ctx.family == af_inet
      then if is_blocked maps ctx.user_ip4 then reject_connect task ctx else allowed
      else allowed

  is_blocked_iff :
      (maps : KernelMaps) (dst_ip : ℕ)
      → hltonl 2851995134 ≡ metadata_ip
      → (is_blocked maps dst_ip ≡ true)
        ↔ ((dst_ip ≡ metadata_ip) ⊎ (maps.blocked_ips dst_ip ≡ some 1))
  unfolding is_blocked
  is_blocked_iff maps dst_ip h = rw h (elim (Bool-cases (dst_ip == metadata_ip)) [
    | inl same ↦ ground (arith, same)
    | inr other ↦ ground (arith, other, is_one_iff (maps.blocked_ips dst_ip))
  ])

  -- If `bpf_hltonl` takes 0xA9FEA9FE to network byte order: an IPv4 connection is rejected exactly when
  -- it goes to the metadata service or to an address that the map of blocked addresses has with
  -- the value 1; no other connection is rejected, and an event is submitted only for a rejected
  -- one, with its destination.
  pub aegis_cgroup_connect4_iff :
      (maps : KernelMaps) (task : Task) (ctx : SockAddr)
      → hltonl 2851995134 ≡ metadata_ip
      → let r = aegis_cgroup_connect4 maps task ctx in
        ((r.verdict ≡ 0) ↔ (
          (ctx.family ≡ af_inet)
          × ((ctx.user_ip4 ≡ metadata_ip) ⊎ (maps.blocked_ips ctx.user_ip4 ≡ some 1))))
        × ((e : NetSecurityEvent)
            → r.submitted ≡ some e
            → (r.verdict ≡ 0) × (e.dst_ip ≡ ctx.user_ip4))
  unfolding aegis_cgroup_connect4 reject_connect net_security_event
  aegis_cgroup_connect4_iff maps task ctx h = (
    (
      λ r. (ground arith, (is_blocked_iff maps ctx.user_ip4 h).0 (ground arith)),
      λ r. ground (arith, (is_blocked_iff maps ctx.user_ip4 h).1 r.1),
    ),
    λ e s. (ground arith, ground arith),
  )
