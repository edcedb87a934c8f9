-- ===== src/Kernel/Tasks.antt =====
-- What the kernel's helpers tell a BPF program, and how the programs read an element of a map.
use aegis_sandbox.Prelude.{
  ℕ, ◌/◌, ◌%◌, ◌^◌, Bool, true, false, not, Option, none, some, List, ◌==◌, ◌≡◌, ◌↔◌, arith,
}

-- The answers of the helpers for the task that a program runs for. `comm` and `filename` are the texts
-- that `bpf_get_current_comm` and `bpf_probe_read_user_str` leave, up to the NUL.
pub record Task : Type 0 where
  pub cgroup_id : ℕ
  pub pid_tgid : ℕ
  pub uid_gid : ℕ
  pub ktime_ns : ℕ
  pub parent_tgid : ℕ
  pub comm : List ℕ
  -- Whether `bpf_ringbuf_reserve` finds room.
  pub has_room : Bool

-- The elements of the maps, as `bpf_map_lookup_elem` finds them by key.
pub record KernelMaps : Type 0 where
  pub monitored_cgroups : ℕ → Option ℕ
  pub syscall_policy : ℕ → Option ℕ
  pub blocked_ips : ℕ → Option ℕ
  pub monitored_cgroups_proc : ℕ → Option ℕ

-- `element && *element != 0`
unfoldable pub is_nonzero : Option ℕ → Bool
is_nonzero none = false
is_nonzero (some v) = not (v == 0)

-- `element && *element == 1`
unfoldable pub is_one : Option ℕ → Bool
is_one none = false
is_one (some v) = v == 1

-- `(u32)x` and `x >> 32` of a 64-bit number.
unfoldable pub low_half : ℕ → ℕ
low_half n = n % 2 ^ 32

unfoldable pub high_half : ℕ → ℕ
high_half n = n / 2 ^ 32

pub is_one_iff : (o : Option ℕ) → (is_one o ≡ true) ↔ (o ≡ some 1)
unfolding is_one
is_one_iff none = (λ h. ground arith, λ h. ground arith)
is_one_iff (some v) = (λ h. ground arith, λ h. ground arith)
