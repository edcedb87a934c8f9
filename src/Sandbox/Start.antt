-- ===== src/Sandbox/Start.antt =====
-- What `start_instance` does under the mutex: the steps of a creation that boot and register.
use aegis_sandbox.Prelude.{ℕ, ◌-◌, ◌≡◌, String, true, false, none, some, arith, assign}
use aegis_sandbox.Core.{Status, success}
use aegis_sandbox.Os.{Os, Machine}
use aegis_sandbox.Cgroup.Manager.{is_success}
use aegis_sandbox.Sandbox.Types.{SandboxInstance, SandboxManager}
use aegis_sandbox.Sandbox.Boot.{boot, apply_ebpf_policies}
use aegis_sandbox.Sandbox.Steps.{running_instance}
use aegis_sandbox.Sandbox.Manager.{with_lock, terminate_sandbox, start_instance}
use aegis_sandbox.Sandbox.Frames.{boot-state, apply_ebpf_policies-state}

module _ (os : Os) where
  -- The manager's mutex is held: `terminate_sandbox` does not return.
  terminate_blocks :
      (id : String) (m : Machine SandboxManager)
      → m.state.locked ≡ true
      → terminate_sandbox os id m ≡ none
  unfolding terminate_sandbox with_lock
  terminate_blocks id m h = ground arith

  module _ (instance : SandboxInstance) (start_time : ℕ) (m : Machine SandboxManager)
      (held : m.state.locked ≡ true) where
    abbrev pub booted : Status × Machine SandboxManager
    booted = boot os instance m

    abbrev pub applied : Status × Machine SandboxManager
    applied = apply_ebpf_policies os instance booted.1

    pub start_blocks_boot :
        is_success booted.0 ≡ false → start_instance os instance start_time m ≡ none
    unfolding start_instance
    start_blocks_boot failed =
        ground
          (arith, boot-state os instance m, terminate_blocks instance.config.sandbox_id booted.1)

    pub start_blocks_apply :
        is_success booted.0 ≡ true
        → is_success applied.0 ≡ false
        → start_instance os instance start_time m ≡ none
    unfolding start_instance
    start_blocks_apply ok failed = ground (
      arith,
      boot-state os instance m,
      apply_ebpf_policies-state os instance booted.1,
      terminate_blocks instance.config.sandbox_id applied.1,
    )

    -- The manager with the sandbox registered.
    abbrev pub registered : Machine SandboxManager
    registered = record {
      state = record (m.state) {
        sandboxes =
            assign instance.config.sandbox_id
              (running_instance instance (os.now applied.1.trace - start_time)) m.state.sandboxes;
      };
      trace = applied.1.trace;
    }

    pub start_registers :
        is_success booted.0 ≡ true
        → is_success applied.0 ≡ true
        → start_instance os instance start_time m ≡ some (success, registered)
    unfolding start_instance
    start_registers ok done =
        ground (arith, boot-state os instance m, apply_ebpf_policies-state os instance booted.1)
