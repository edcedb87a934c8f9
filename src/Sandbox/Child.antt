-- ===== src/Sandbox/Child.antt =====
-- src/runtime/sandbox_manager.cpp: the child's side of `fork` in `spawn_firecracker_process`.
use aegis_sandbox.Prelude.{ℕ, String, Bool, List, [], ◌∷◌, ◌++◌, if◌then◌else◌}
use aegis_sandbox.Prelude.Int.{ℤ, is_neg}
use aegis_sandbox.Prelude.Paths.{until_nul}
use aegis_sandbox.Sandbox.Types.{SandboxInstance}

pub data ChildCall : Type 0 where
  opened_null : ℤ → ChildCall
  duplicated : ℤ → ℕ → ChildCall
  closed_null : ℤ → ChildCall
  execv : String → List String → ChildCall
  exited : ℕ → ChildCall

-- What the child does: `dev_null` is the answer of `open`, and `replaced` says that `execv` does not return.
unfoldable pub child : SandboxInstance → ℤ → Bool → List ChildCall
child instance dev_null replaced =
    let bin_path = until_nul instance.config.firecracker_bin_path in
    let sock_path = until_nul instance.socket_path in
    opened_null dev_null
    ∷ ((if is_neg dev_null
          then []
          else duplicated dev_null 0
            ∷ duplicated dev_null 1
            ∷ duplicated dev_null 2
            ∷ closed_null dev_null
            ∷ [])
        ++ execv bin_path (bin_path ∷ "--api-sock" ∷ sock_path ∷ [])
          ∷ (if replaced then [] else exited 1 ∷ []))
