-- ===== src/Core/Messages.antt =====
-- The messages of the status codes tell the codes apart.
use aegis_sandbox.Prelude.{String, ◌≡◌, refl, ap, Option, some, [], ◌∷◌, lookup}
use aegis_sandbox.Core.{
  Status, success, err_micro_vm_boot_failed, err_snapshot_restore_failed,
  err_ebpf_probe_load_failed, err_syscall_blocked, err_network_egress_blocked,
  err_agent_execution_timeout, err_policy_violation, err_cgroup_quota_exceeded,
  err_invalid_sandbox_id, err_tap_interface_creation_failed, err_unknown, status_to_string,
}

-- What a reader of a message takes it for.
read_message : String → Option Status
unfolding status_to_string
read_message m = lookup m (
    entry success
    ∷ entry err_micro_vm_boot_failed
    ∷ entry err_snapshot_restore_failed
    ∷ entry err_ebpf_probe_load_failed
    ∷ entry err_syscall_blocked
    ∷ entry err_network_egress_blocked
    ∷ entry err_agent_execution_timeout
    ∷ entry err_policy_violation
    ∷ entry err_cgroup_quota_exceeded
    ∷ entry err_invalid_sandbox_id
    ∷ entry err_tap_interface_creation_failed
    ∷ entry err_unknown
    ∷ [])
  where
    entry : Status → String × Status
    entry s = (status_to_string s, s)

read_message-status_to_string : (s : Status) → read_message (status_to_string s) ≡ some s
unfolding read_message lookup
read_message-status_to_string success = refl
read_message-status_to_string _ = refl

-- No two status codes have the same message.
status_to_string-injective : (s t : Status) → status_to_string s ≡ status_to_string t → s ≡ t
status_to_string-injective s t e =
    cc (read_message-status_to_string s, read_message-status_to_string t, ap read_message e)
