-- ===== src/Cli/Signals.antt =====
-- cmd/aegis-cli/main.cpp: the handler of SIGINT and SIGTERM. `std::exit` runs no destructor of `main`'s
-- variables.
use aegis_sandbox.Prelude.{
  ℕ, ◌≡◌, refl, ap, String, Bool, true, false, Option, none, some, List, [], lookup, Any, ◌⊎◌, inl,
  inr,
}
use aegis_sandbox.Os.{Os, Trace, Machine}
use aegis_sandbox.Policy.Engine.{PolicyEngine}
use aegis_sandbox.Ebpf.Loader.{EbpfLoader}
use aegis_sandbox.Sandbox.Types.{SandboxManager, Run}
use aegis_sandbox.Sandbox.Manager.{
  pure, ◌>>◌, with_lock, set_locked, sandbox_manager, terminate_all,
}
use aegis_sandbox.Sandbox.Validity.{all_gone}
use aegis_sandbox.Sandbox.Shutdown.{terminate_all_outcome}
use aegis_sandbox.Sandbox.History.{Command, IsCreation, run, run-sandbox_manager-IsValid}

module _ (os : Os) where
  -- `given` is whether `g_sandbox_manager` is set; the result is the exit status.
  unfoldable pub signal_handler : Bool → ℕ → Run ℕ
  signal_handler false signal = pure signal
  signal_handler true signal = do terminate_all os; pure signal

  abbrev exits_with :
      ℕ → Option (Unit {0} × Machine SandboxManager) → Option (ℕ × Machine SandboxManager)
  exits_with signal o = elim o [ none ↦ none | some (u, n) ↦ some (signal, n) ]

  handler_returns :
      (signal : ℕ) (m n : Machine SandboxManager)
      → terminate_all os m ≡ some (tt, n)
      → signal_handler true signal m ≡ some (signal, n)
  unfolding signal_handler
  handler_returns signal m n e = ap (exits_with signal) e

  handler_waits :
      (signal : ℕ) (m : Machine SandboxManager)
      → signal_handler true signal (set_locked true m) ≡ none
  unfolding signal_handler terminate_all with_lock
  handler_waits signal m = refl

  -- After every history of calls of a manager from its constructor on: a signal between two calls ends
  -- the program with the signal's number, with no sandbox and no cgroup left, and a signal in the middle
  -- of a method, which holds the mutex, starts a handler that never returns; unless the history has a
  -- creation in it and does not return itself.
  pub signal_handler_outcome :
      (loader : Option EbpfLoader) (engine : Option PolicyEngine) (base : String) (t : Trace)
      (cs : List Command) (signal : ℕ)
      → ((m : Machine SandboxManager) × (run os cs (sandbox_manager os loader engine base t)
            ≡ some m)
          × (signal_handler true signal (set_locked true m) ≡ none)
          × (n : Machine SandboxManager) × (signal_handler true signal m ≡ some (signal, n))
          × (n.state.sandboxes ≡ [])
          × ((id : String) → lookup id n.state.cgroup_manager.cgroups ≡ none))
        ⊎ ((run os cs (sandbox_manager os loader engine base t) ≡ none) × Any IsCreation cs)
  signal_handler_outcome loader engine base t cs signal =
      elim (run-sandbox_manager-IsValid os loader engine base t cs) [
        | inl (m, e, v) ↦
            let (n, done, none_left, free, cgroups) =
              terminate_all_outcome os m v.free v.distinct_cgroups in
            inl (
              m,
              e,
              handler_waits signal m,
              n,
              handler_returns signal m n done,
              none_left,
              all_gone m n v cgroups,
            )
        | inr stuck ↦ inr stuck
      ]
