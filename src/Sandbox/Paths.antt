-- ===== src/Sandbox/Paths.antt =====
-- Where the directories of a sandbox lie when its id is an absolute path.
use aegis_sandbox.Prelude.{◌≡◌, inl, inr, String, true, false, some, arith, lookup}
use aegis_sandbox.Prelude.Paths.{is_absolute, join-absolute}
use aegis_sandbox.Core.{success}
use aegis_sandbox.Os.{Os, Machine, removed_all, Latest}
use aegis_sandbox.Sandbox.Types.{SandboxInstance, SandboxManager}
use aegis_sandbox.Sandbox.Manager.{terminate_sandbox}
use aegis_sandbox.Sandbox.Terminate.{terminate_sandbox_outcome}

module _ (os : Os) where
  -- On a manager whose mutex is free, terminating a registered sandbox whose id is an absolute path
  -- returns success and removes that path itself, recursively and last.
  terminate_sandbox_escapes :
      (id : String) (i : SandboxInstance) (m : Machine SandboxManager)
      → is_absolute id ≡ true
      → m.state.locked ≡ false
      → lookup id m.state.sandboxes ≡ some i
      → (n : Machine SandboxManager) × (terminate_sandbox os id m ≡ some (success, n))
        × Latest (removed_all id) n.trace
  terminate_sandbox_escapes id i m absolute free found =
      elim (terminate_sandbox_outcome os id m free) [
        | inl (unknown, e) ↦ ground (arith, unknown, found)
        | inr (_, _, n, e, _, _, _, last) ↦
            (n, e, rw (← join-absolute m.state.base_runtime_dir id absolute) last)
      ]
