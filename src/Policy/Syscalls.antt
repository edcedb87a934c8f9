-- ===== src/Policy/Syscalls.antt =====
-- src/policy/policy_engine.cpp: the x86_64 syscall names and their resolution.
use aegis_sandbox.Prelude.{
  ℕ, ◌<◌, ◌≡◌, refl, String, Bool, true, not, ◌&&◌, Option, some, [], ◌∷◌, arith, ltb, ltb→lt, ◌==◌,
  Assoc, lookup, eq_iff,
}

-- `s_syscall_name_map`.
unfoldable pub syscall_name_map : Assoc ℕ
syscall_name_map =
    ("read", 0)
    ∷ ("write", 1)
    ∷ ("open", 2)
    ∷ ("close", 3)
    ∷ ("stat", 4)
    ∷ ("fstat", 5)
    ∷ ("lstat", 6)
    ∷ ("poll", 7)
    ∷ ("lseek", 8)
    ∷ ("mmap", 9)
    ∷ ("mprotect", 10)
    ∷ ("munmap", 11)
    ∷ ("brk", 12)
    ∷ ("rt_sigaction", 13)
    ∷ ("rt_sigprocmask", 14)
    ∷ ("rt_sigreturn", 15)
    ∷ ("ioctl", 16)
    ∷ ("pread64", 17)
    ∷ ("pwrite64", 18)
    ∷ ("readv", 19)
    ∷ ("writev", 20)
    ∷ ("access", 21)
    ∷ ("pipe", 22)
    ∷ ("select", 23)
    ∷ ("sched_yield", 24)
    ∷ ("mremap", 25)
    ∷ ("msync", 26)
    ∷ ("mincore", 27)
    ∷ ("madvise", 28)
    ∷ ("dup", 32)
    ∷ ("dup2", 33)
    ∷ ("pause", 34)
    ∷ ("nanosleep", 35)
    ∷ ("getpid", 39)
    ∷ ("sendfile", 40)
    ∷ ("socket", 41)
    ∷ ("connect", 42)
    ∷ ("accept", 43)
    ∷ ("sendto", 44)
    ∷ ("recvfrom", 45)
    ∷ ("sendmsg", 46)
    ∷ ("recvmsg", 47)
    ∷ ("shutdown", 48)
    ∷ ("bind", 49)
    ∷ ("listen", 50)
    ∷ ("getsockname", 51)
    ∷ ("getpeername", 52)
    ∷ ("socketpair", 53)
    ∷ ("setsockopt", 54)
    ∷ ("getsockopt", 55)
    ∷ ("clone", 56)
    ∷ ("fork", 57)
    ∷ ("vfork", 58)
    ∷ ("execve", 59)
    ∷ ("exit", 60)
    ∷ ("wait4", 61)
    ∷ ("kill", 62)
    ∷ ("uname", 63)
    ∷ ("fcntl", 72)
    ∷ ("flock", 73)
    ∷ ("fsync", 74)
    ∷ ("fdatasync", 75)
    ∷ ("getcwd", 79)
    ∷ ("chdir", 80)
    ∷ ("mkdir", 83)
    ∷ ("rmdir", 84)
    ∷ ("unlink", 87)
    ∷ ("chmod", 90)
    ∷ ("fchmod", 91)
    ∷ ("chown", 92)
    ∷ ("gettimeofday", 96)
    ∷ ("getrlimit", 97)
    ∷ ("getrusage", 98)
    ∷ ("sysinfo", 99)
    ∷ ("ptrace", 101)
    ∷ ("getuid", 102)
    ∷ ("getgid", 104)
    ∷ ("setuid", 105)
    ∷ ("setgid", 106)
    ∷ ("geteuid", 107)
    ∷ ("getegid", 108)
    ∷ ("sigaltstack", 131)
    ∷ ("statfs", 137)
    ∷ ("fstatfs", 138)
    ∷ ("prctl", 157)
    ∷ ("arch_prctl", 158)
    ∷ ("setrlimit", 160)
    ∷ ("chroot", 161)
    ∷ ("sync", 162)
    ∷ ("reboot", 169)
    ∷ ("init_module", 175)
    ∷ ("delete_module", 176)
    ∷ ("gettid", 186)
    ∷ ("futex", 202)
    ∷ ("sched_setaffinity", 203)
    ∷ ("sched_getaffinity", 204)
    ∷ ("epoll_create", 213)
    ∷ ("epoll_ctl", 233)
    ∷ ("epoll_wait", 232)
    ∷ ("set_tid_address", 218)
    ∷ ("clock_gettime", 228)
    ∷ ("clock_getres", 229)
    ∷ ("clock_nanosleep", 230)
    ∷ ("exit_group", 231)
    ∷ ("tgkill", 234)
    ∷ ("openat", 257)
    ∷ ("mkdirat", 258)
    ∷ ("mknodat", 259)
    ∷ ("fchownat", 260)
    ∷ ("fstatat", 262)
    ∷ ("unlinkat", 263)
    ∷ ("renameat", 264)
    ∷ ("fchmodat", 268)
    ∷ ("faccessat", 269)
    ∷ ("pselect6", 270)
    ∷ ("ppoll", 271)
    ∷ ("unshare", 272)
    ∷ ("splice", 275)
    ∷ ("epoll_pwait", 281)
    ∷ ("timerfd_create", 283)
    ∷ ("eventfd", 284)
    ∷ ("fallocate", 285)
    ∷ ("timerfd_settime", 286)
    ∷ ("accept4", 288)
    ∷ ("signalfd4", 289)
    ∷ ("eventfd2", 290)
    ∷ ("epoll_create1", 291)
    ∷ ("dup3", 292)
    ∷ ("pipe2", 293)
    ∷ ("inotify_init1", 294)
    ∷ ("preadv", 295)
    ∷ ("pwritev", 296)
    ∷ ("prlimit64", 302)
    ∷ ("name_to_handle_at", 303)
    ∷ ("open_by_handle_at", 304)
    ∷ ("getrandom", 318)
    ∷ ("memfd_create", 319)
    ∷ ("bpf", 321)
    ∷ ("execveat", 322)
    ∷ ("userfaultfd", 323)
    ∷ ("copy_file_range", 326)
    ∷ ("statx", 332)
    ∷ ("io_uring_setup", 425)
    ∷ ("io_uring_enter", 426)
    ∷ ("io_uring_register", 427)
    ∷ ("openat2", 437)
    ∷ ("faccessat2", 439)
    ∷ ("epoll_pwait2", 441)
    ∷ ("landlock_create_ruleset", 444)
    ∷ ("landlock_restrict_self", 445)
    ∷ []

-- `resolve_syscall_name`.
unfoldable pub resolve_syscall_name : String → Option ℕ
resolve_syscall_name name = lookup name syscall_name_map

-- Every number of a table passes a test.
all_values : (ℕ → Bool) → Assoc ℕ → Bool
all_values p [] = true
all_values p ((k, v) ∷ m) = p v && all_values p m

lookup-all_values :
    (p : ℕ → Bool) (k : String) (m : Assoc ℕ) (n : ℕ)
    → all_values p m ≡ true
    → lookup k m ≡ some n
    → p n ≡ true
unfolding all_values lookup
lookup-all_values p k [] n a h = ground arith
lookup-all_values p k ((j, v) ∷ m) n a h = ground (arith, lookup-all_values p k m n)

-- No number stands twice in a table.
distinct_values : Assoc ℕ → Bool
unfolding all_values
distinct_values [] = true
distinct_values ((k, v) ∷ m) = all_values (λ w. not (w == v)) m && distinct_values m

lookup-distinct_values :
    (j k : String) (m : Assoc ℕ) (n : ℕ)
    → distinct_values m ≡ true
    → lookup j m ≡ some n
    → lookup k m ≡ some n
    → j ≡ k
unfolding distinct_values lookup
lookup-distinct_values j k [] n d p q = ground arith
lookup-distinct_values j k ((i, v) ∷ m) n d p q = ground (
  arith,
  eq_iff i j,
  eq_iff i k,
  lookup-all_values (λ w. not (w == v)) j m n,
  lookup-all_values (λ w. not (w == v)) k m n,
  lookup-distinct_values j k m n,
)

syscall_name_map_below : all_values (λ n. ltb n 512) syscall_name_map ≡ true
unfolding all_values syscall_name_map
syscall_name_map_below = refl

syscall_name_map_distinct : distinct_values syscall_name_map ≡ true
unfolding distinct_values syscall_name_map
syscall_name_map_distinct = refl

-- A resolved number is below 512, the number of entries of the kernel's `aegis_syscall_policy`.
resolve_syscall_name-lt : (name : String) (n : ℕ) → resolve_syscall_name name ≡ some n → n < 512
unfolding resolve_syscall_name
resolve_syscall_name-lt name n h =
    ltb→lt n 512
      (lookup-all_values (λ k. ltb k 512) name syscall_name_map n syscall_name_map_below h)

-- Two names that resolve to one number are one name.
resolve_syscall_name-injective :
    (a b : String) (n : ℕ)
    → resolve_syscall_name a ≡ some n
    → resolve_syscall_name b ≡ some n
    → a ≡ b
unfolding resolve_syscall_name
resolve_syscall_name-injective a b n =
    lookup-distinct_values a b syscall_name_map n syscall_name_map_distinct
