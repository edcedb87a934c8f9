-- ===== src/Cgroup/Bounds.antt =====
-- The limits fit into the 64-bit numbers that the manager computes with.
use aegis_sandbox.Prelude.{ℕ, ◌*◌, ◌^◌, ◌<◌, ◌≡◌, arith}
use aegis_sandbox.Cgroup.Manager.{cpu_quota, memory_bytes}

-- For every 32-bit count of cores and of megabytes the quota and the bytes are the exact products:
-- neither 64-bit product wraps.
limits_exact :
    (cores megabytes : ℕ)
    → cores < 2 ^ 32
    → megabytes < 2 ^ 32
    → (cpu_quota cores ≡ cores * 100000) × (memory_bytes megabytes ≡ megabytes * 1048576)
unfolding cpu_quota memory_bytes
limits_exact cores megabytes h k = omega arith
