-- ===== src/Tests/Policies.antt =====
-- The policy engine and the status codes at concrete inputs.
use aegis_sandbox.Prelude.{◌≡◌, refl, decimal, true, none, some, [], ◌∷◌, lookup}
use aegis_sandbox.Core.{to_string, get_version}
use aegis_sandbox.Policy.Syscalls.{syscall_name_map, resolve_syscall_name}
use aegis_sandbox.Policy.Engine.{SecurityPolicy, empty_policy, metadata_ip, inet_addr}

-- A policy that allows all that it does not block.
abbrev lenient : SecurityPolicy
lenient = record empty_policy {
  policy_name = "lenient";
  syscall_rule = record {
    allowed_syscalls = [];
    blocked_syscalls = 101 ∷ [];
    default_allow = true;
  };
}

openat_resolves : resolve_syscall_name "openat" ≡ some 257
unfolding resolve_syscall_name syscall_name_map lookup
openat_resolves = refl

kexec_load_unresolved : resolve_syscall_name "kexec_load" ≡ none
unfolding resolve_syscall_name syscall_name_map lookup
kexec_load_unresolved = refl

-- 0xFEA9FEA9, as the comment in the engine has it.
metadata_ip_value : metadata_ip ≡ 4272553641
unfolding metadata_ip inet_addr
metadata_ip_value = refl

version_text : to_string get_version ≡ "0.1.0"
unfolding to_string decimal
version_text = refl
