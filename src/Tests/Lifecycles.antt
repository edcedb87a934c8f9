-- ===== src/Tests/Lifecycles.antt =====
-- A sandbox from its creation to its termination, and beside another one, at concrete inputs.
use aegis_sandbox.Prelude.{
  String, true, false, ap, str_eq, ◌≡◌, ◌≢◌, ◌⊎◌, refl, none, some, List, [], ◌∷◌, Any, Option,
  has_key,
}
use aegis_sandbox.Prelude.Paths.{is_empty, prefix, until_nul, includes}
use aegis_sandbox.Core.{Status, success}
use aegis_sandbox.Os.{Machine}
use aegis_sandbox.Cgroup.Manager.{
  create_cgroup, apply_limits, write_sysfs_file, fetch_inode_id, attach_pid,
}
use aegis_sandbox.Sandbox.Types.{SandboxManager}
use aegis_sandbox.Sandbox.Boot.{
  boot, setup_tap_interface, spawn_firecracker_process, await_socket, restore_firecracker_snapshot,
  configure_firecracker_api, send_unix_http_put, apply_ebpf_policies,
}
use aegis_sandbox.Sandbox.Steps.{prepare, new_instance, running_instance}
use aegis_sandbox.Sandbox.Manager.{create_sandbox, start_instance, terminate_sandbox, with_lock}
use aegis_sandbox.Sandbox.History.{
  Command, creates, runs_code, terminates, queries, IsCreation, run,
}
use aegis_sandbox.Sandbox.Isolation.{Same, others_untouched}
use aegis_sandbox.Sandbox.Lifecycle.{creation-Registered, create_terminate}
use aegis_sandbox.Sandbox.Validity.{IsValid, Registered-IsValid}
use aegis_sandbox.Tests.Threads.{empty_IsValid}
use aegis_sandbox.Tests.Sandboxes.{config, empty}
use aegis_sandbox.Tests.Machines.{quiet_os}

abbrev machine_of : Option (Status × Machine SandboxManager) → Machine SandboxManager
machine_of none = empty
machine_of (some (s, m)) = m

abbrev made : Machine SandboxManager
made = machine_of (create_sandbox quiet_os config empty)

made_succeeds : create_sandbox quiet_os config empty ≡ some (success, made)
unfolding create_sandbox with_lock start_instance prepare create_cgroup has_key apply_limits
    write_sysfs_file fetch_inode_id setup_tap_interface spawn_firecracker_process await_socket
    new_instance attach_pid boot restore_firecracker_snapshot configure_firecracker_api
    send_unix_http_put apply_ebpf_policies running_instance is_empty includes until_nul prefix
made_succeeds = refl

abbrev calls : List Command
calls = runs_code "agent-1" "print(1)" ∷ queries "agent-2" ∷ []

create_terminate_example :
    (k l : Machine SandboxManager) × (run quiet_os calls made ≡ some k)
    × (terminate_sandbox quiet_os "agent-1" k ≡ some (success, l))
    × (l.state ≡ empty.state)
create_terminate_example =
    create_terminate quiet_os config empty made calls refl made_succeeds (tt, (tt, tt))

made_IsValid : IsValid made.state
made_IsValid =
    Registered-IsValid config empty.state made.state empty_IsValid
      (creation-Registered quiet_os config empty made refl made_succeeds)

-- Another sandbox comes and goes.
abbrev visits : List Command
visits =
    creates (record config { sandbox_id = "agent-2" })
    ∷ runs_code "agent-1" "print(1)"
    ∷ terminates "agent-2"
    ∷ []

abbrev visitor : String
visitor = "agent-2"

different : visitor ≢ config.sandbox_id
different e = let f : true ≡ false = ap (str_eq visitor) e in cc

others_untouched_example :
    ((n : Machine SandboxManager) × (run quiet_os visits made ≡ some n)
      × Same "agent-1" made.state n.state)
    ⊎ ((run quiet_os visits made ≡ none) × Any IsCreation visits)
others_untouched_example =
    others_untouched quiet_os "agent-1" visits made made_IsValid (different, (tt, (different, tt)))
