-- ===== src/Policy/Engine.antt =====
-- include/aegis/policy/policy_engine.hpp and src/policy/policy_engine.cpp: the policies and the
-- engine that keeps and evaluates them. A set of syscall numbers is a list read through
-- `contains`; each method holds the engine's lock from beginning to end, so it is one step.
use aegis_sandbox.Prelude.{
  ℕ, ◌+◌, ◌*◌, String, Bool, true, false, ◌&&◌, Option, none, some, List, [], ◌∷◌, ◌==◌, contains,
  insert, Assoc, lookup, assign, if◌then◌else◌,
}
use aegis_sandbox.Core.{Status, success}
use aegis_sandbox.Policy.Syscalls.{resolve_syscall_name}

pub record SyscallPolicyRule : Type 0 where
  pub allowed_syscalls : List ℕ
  pub blocked_syscalls : List ℕ
  pub default_allow : Bool

pub record NetworkPolicyRule : Type 0 where
  pub block_all_egress : Bool
  pub block_cloud_metadata : Bool
  pub blocked_cidrs : List String
  pub blocked_ips_network_order : List ℕ

pub record SecurityPolicy : Type 0 where
  pub policy_name : String
  pub syscall_rule : SyscallPolicyRule
  pub network_rule : NetworkPolicyRule
  pub max_execution_time_sec : ℕ

-- `SecurityPolicy policy{}`: the members' default initialisers.
abbrev pub empty_policy : SecurityPolicy
empty_policy = record {
  policy_name = "";
  syscall_rule = record { allowed_syscalls = []; blocked_syscalls = []; default_allow = false };
  network_rule = record {
    block_all_egress = false;
    block_cloud_metadata = true;
    blocked_cidrs = [];
    blocked_ips_network_order = [];
  };
  max_execution_time_sec = 30;
}

pub record PolicyEngine : Type 0 where
  pub policies : Assoc SecurityPolicy

-- `inet_addr("a.b.c.d")` on a little-endian machine: the first number is the lowest byte.
unfoldable pub inet_addr : ℕ → ℕ → ℕ → ℕ → ℕ
inet_addr a b c d = a + b * 256 + c * 65536 + d * 16777216

unfoldable pub metadata_ip : ℕ
unfolding inet_addr
metadata_ip = inet_addr 169 254 169 254

unfoldable pub register_policy : PolicyEngine → SecurityPolicy → PolicyEngine × Status
register_policy e policy =
    (record { policies = assign policy.policy_name policy e.policies }, success)

-- The text is not read.
unfoldable pub load_from_json : PolicyEngine → String → PolicyEngine × Status
load_from_json e json_str = register_policy e (record empty_policy {
  policy_name = "json_imported_policy";
  network_rule = record (empty_policy.network_rule) { block_cloud_metadata = true };
})

unfoldable pub eval_syscall_rule : SyscallPolicyRule → ℕ → Bool
eval_syscall_rule rule syscall_nr =
    if contains syscall_nr rule.blocked_syscalls
    then false
    else if contains syscall_nr rule.allowed_syscalls
    then true
    else rule.default_allow

unfoldable pub eval_syscall : PolicyEngine → String → ℕ → Bool
unfolding eval_syscall_rule
eval_syscall e policy_name syscall_nr = elim (lookup policy_name e.policies) [
  | none ↦ false
  | some policy ↦ eval_syscall_rule policy.syscall_rule syscall_nr
]

-- The loop over the blocked addresses: `false` at the first that is the destination.
unfoldable pub none_blocked : ℕ → List ℕ → Bool
none_blocked ip [] = true
none_blocked ip (blocked_ip ∷ rest) = if ip == blocked_ip then false else none_blocked ip rest

unfoldable pub eval_network_rule : NetworkPolicyRule → ℕ → Bool
eval_network_rule rule ip =
    if rule.block_all_egress
    then false
    else if rule.block_cloud_metadata && ip == metadata_ip
    then false
    else none_blocked ip rule.blocked_ips_network_order

unfoldable pub eval_network_egress : PolicyEngine → String → ℕ → Bool
eval_network_egress e policy_name ip = elim (lookup policy_name e.policies) [
  | none ↦ false
  | some policy ↦ eval_network_rule policy.network_rule ip
]

unfoldable pub get_policy : PolicyEngine → String → Option SecurityPolicy
get_policy e policy_name = lookup policy_name e.policies

unfoldable pub insert_found : Option ℕ → List ℕ → List ℕ
insert_found none set = set
insert_found (some sys_nr) set = insert sys_nr set

-- The loop that resolves names and inserts the numbers of those that it finds.
unfoldable pub insert_resolved : List String → List ℕ → List ℕ
insert_resolved [] set = set
insert_resolved (name ∷ names) set =
    insert_resolved names (insert_found (resolve_syscall_name name) set)

unfoldable pub strict_python_allowed : List String
strict_python_allowed =
    "read" ∷ "write" ∷ "openat" ∷ "close" ∷ "fstat" ∷ "mmap" ∷ "mprotect" ∷ "munmap" ∷ "brk"
    ∷ "rt_sigaction" ∷ "rt_sigprocmask" ∷ "ioctl" ∷ "access" ∷ "futex" ∷ "exit_group"
    ∷ "epoll_create1" ∷ "epoll_ctl" ∷ "epoll_wait" ∷ "getrandom" ∷ "statx" ∷ "fcntl" ∷ "getcwd"
    ∷ "getuid" ∷ "getgid" ∷ "geteuid" ∷ "getegid" ∷ "gettid" ∷ "lseek" ∷ []

unfoldable pub strict_python_blocked : List String
strict_python_blocked =
    "ptrace" ∷ "bpf" ∷ "init_module" ∷ "delete_module" ∷ "kexec_load" ∷ "pivot_root" ∷ "reboot"
    ∷ "chroot" ∷ "sysfs" ∷ "iopl" ∷ "ioperm" ∷ []

unfoldable pub strict_python : SecurityPolicy
unfolding insert_resolved insert_found strict_python_allowed strict_python_blocked
strict_python = record {
  policy_name = "strict_python";
  syscall_rule = record {
    allowed_syscalls = insert_resolved strict_python_allowed [];
    blocked_syscalls = insert_resolved strict_python_blocked [];
    default_allow = false;
  };
  network_rule = record (empty_policy.network_rule) {
    block_all_egress = false;
    block_cloud_metadata = true;
  };
  max_execution_time_sec = 15;
}

unfoldable pub register_default_strict_python_policy : PolicyEngine → PolicyEngine × Status
unfolding strict_python
register_default_strict_python_policy e = register_policy e strict_python

-- The constructor.
unfoldable pub policy_engine : PolicyEngine
unfolding register_default_strict_python_policy
policy_engine = (register_default_strict_python_policy (record { policies = [] })).0
