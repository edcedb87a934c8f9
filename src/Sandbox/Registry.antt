-- ===== src/Sandbox/Registry.antt =====
-- The specification of the sandbox manager: a registry of configurations by id, and which answer a call may
-- give, to what effect. Whether Firecracker boots and what an agent answers is left open.
use aegis_sandbox.Prelude.{
  ℕ, ◌≡◌, ◌≢◌, ◌⊎◌, String, true, false, Option, none, some, List, [], ◌∷◌, str_eq, if◌then◌else◌,
}
use aegis_sandbox.Prelude.Int.{pos, minus_one}
use aegis_sandbox.Prelude.Paths.{is_empty}
use aegis_sandbox.Core.{Status, success, err_invalid_sandbox_id, SandboxMetadata, running}
use aegis_sandbox.Sandbox.Types.{SandboxConfig, ExecutionResult}
use aegis_sandbox.Sandbox.History.{Command, creates, runs_code, terminates, terminates_all, queries}
use aegis_sandbox.Sandbox.Threads.{Answer, created, terminated, executed, swept, shown}

abbrev pub Registry : Type 0
Registry = String → Option SandboxConfig

-- `q` is `r` but for what it has at `id`.
abbrev pub Updates : Registry → String → Option SandboxConfig → Registry → Type 0
Updates r id entry q = (j : String) → q j ≡ (if str_eq id j then entry else r j)

abbrev pub Keeps : Registry → Registry → Type 0
Keeps r q = (j : String) → q j ≡ r j

-- A call with its answer may lead from the registry `r` to `q`.
pub data Spec (r q : Registry) : Command → Answer → Type 0 where
  adds :
      (config : SandboxConfig)
      → is_empty config.sandbox_id ≡ false
      → r config.sandbox_id ≡ none
      → Updates r config.sandbox_id (some config) q
      → Spec r q (creates config) (created success)
  -- An empty id, or one that is in use.
  rejects :
      (config : SandboxConfig)
      → ((is_empty config.sandbox_id ≡ true) ⊎ (r config.sandbox_id ≢ none))
      → Keeps r q
      → Spec r q (creates config) (created err_invalid_sandbox_id)
  fails :
      (config : SandboxConfig) (status : Status)
      → is_empty config.sandbox_id ≡ false
      → r config.sandbox_id ≡ none
      → status ≢ success
      → Keeps r q
      → Spec r q (creates config) (created status)
  removes :
      (id : String)
      → r id ≢ none
      → Updates r id none q
      → Spec r q (terminates id) (terminated success)
  finds_nothing :
      (id : String)
      → r id ≡ none
      → Keeps r q
      → Spec r q (terminates id) (terminated err_invalid_sandbox_id)
  -- Code is answered with 0 only in a sandbox that is there.
  runs :
      (id code : String) (result : ExecutionResult)
      → result.sandbox_id ≡ id
      → ((result.exit_code ≡ pos 0) ⊎ (result.exit_code ≡ minus_one))
      → (result.exit_code ≡ pos 0 → r id ≢ none)
      → Keeps r q
      → Spec r q (runs_code id code) (executed result)
  sweeps : ((j : String) → q j ≡ none) → Spec r q terminates_all swept
  shows :
      (id : String) (metadata : SandboxMetadata)
      → r id ≢ none
      → metadata.sandbox_id ≡ id
      → metadata.state ≡ running
      → Keeps r q
      → Spec r q (queries id) (shown (some metadata))
  shows_nothing : (id : String) → r id ≡ none → Keeps r q → Spec r q (queries id) (shown none)

-- The calls of a history with their answers, the newest first, lead from the registry `r` to `q`.
pub data Explains (r : Registry) : List (ℕ × Command × Answer) → Registry → Type 0 where
  nothing : Explains r [] r
  one_more :
      {k q : Registry} {h : List (ℕ × Command × Answer)} {i : ℕ} {c : Command} {a : Answer}
      → Explains r h k
      → Spec k q c a
      → Explains r ((i, c, a) ∷ h) q
