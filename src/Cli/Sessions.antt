-- ===== src/Cli/Sessions.antt =====
-- What one run of the command line can do: its manager starts without sandboxes.
use aegis_sandbox.Prelude.{
  ℕ, ◌≡◌, inl, inr, refl, String, none, some, List, ◌∷◌, arith, lookup, Option-cases,
}
use aegis_sandbox.Prelude.Int.{minus_one}
use aegis_sandbox.Core.{err_invalid_sandbox_id}
use aegis_sandbox.Os.{Os, Trace, Machine}
use aegis_sandbox.Policy.Engine.{policy_engine}
use aegis_sandbox.Ebpf.Loader.{ebpf_loader}
use aegis_sandbox.Sandbox.Types.{ExecutionResult, SandboxManager}
use aegis_sandbox.Sandbox.Steps.{execute, terminate}
use aegis_sandbox.Sandbox.Manager.{
  with_lock, sandbox_manager, execute_code, terminate_sandbox, get_metadata,
}
use aegis_sandbox.Sandbox.Validity.{IsValid}
use aegis_sandbox.Sandbox.History.{sandbox_manager-IsValid}
use aegis_sandbox.Sandbox.Shutdown.{terminate_all_outcome}
use aegis_sandbox.Cli.Options.{Options, default_options, parse_options}
use aegis_sandbox.Cli.Main.{
  Report, executed, terminate_failed, shown, run_exec, run_terminate, run_status, run_command,
  close_manager, session, main,
}

module _ (os : Os) where
  -- The destructors return on a valid manager.
  close_returns :
      (m : Machine SandboxManager)
      → IsValid m.state
      → (n : Machine SandboxManager) × (close_manager os m ≡ some (tt, n))
  unfolding close_manager
  close_returns m v =
      let (n, e, _, _, _) = terminate_all_outcome os m v.free v.distinct_cgroups in
      elim (Option-cases (close_manager os m)) [
        | inl stuck ↦ ground (arith, e, stuck)
        | inr ((u, k), done) ↦ (k, done)
      ]

  module _ (t : Trace) where
    -- The manager of a run.
    abbrev start : Machine SandboxManager
    start = sandbox_manager os (some ebpf_loader) (some policy_engine) "/var/run/aegis" t

    -- A command that leaves the manager as it starts ends the run with its result.
    session_lem :
        (command : String) (o : Options) (r : ℕ × Report)
        → run_command os command o start ≡ some (r, start)
        → (n : Machine SandboxManager) × (session os command o start ≡ some (r, n))
    unfolding session
    session_lem command o r e =
        let (n, closed) =
          close_returns start (
            sandbox_manager-IsValid os (some ebpf_loader) (some policy_engine) "/var/run/aegis"
              t) in
        (n, ground (arith, e, closed))

    NotThere : ExecutionResult → Type 0
    NotThere r =
        (r.exit_code ≡ minus_one) × (r.stderr_output ≡ "Error: Invalid or inactive sandbox ID.")

    exec_finds_nothing :
        (o : Options)
        → (r : ExecutionResult) × (run_command os "exec" o start ≡ some ((0, executed r), start))
          × NotThere r
    unfolding run_command run_exec execute_code with_lock execute sandbox_manager lookup NotThere
    exec_finds_nothing o = (_, refl, (refl, refl))

    terminate_finds_nothing :
        (o : Options)
        → run_command os "terminate" o start
          ≡ some ((1, terminate_failed err_invalid_sandbox_id), start)
    unfolding run_command run_terminate terminate_sandbox with_lock terminate sandbox_manager lookup
    terminate_finds_nothing o = refl

    status_finds_nothing :
        (o : Options) → run_command os "status" o start ≡ some ((0, shown none), start)
    unfolding run_command run_status get_metadata with_lock sandbox_manager lookup
    status_finds_nothing o = refl

    -- Whatever the options and whatever happened before: "exec" ends with exit code 0 and a result that
    -- says that the sandbox is invalid, "terminate" fails with `err_invalid_sandbox_id`, and
    -- "status" shows no sandbox.
    pub commands_find_nothing :
        (args : List String)
        → ((r : ExecutionResult) × (u : Trace) × (main os ("exec" ∷ args) t
              ≡ some ((0, executed r), u))
            × (r.exit_code ≡ minus_one)
            × (r.stderr_output ≡ "Error: Invalid or inactive sandbox ID."))
          × ((u : Trace) × (main os ("terminate" ∷ args) t
                ≡ some ((1, terminate_failed err_invalid_sandbox_id), u)))
          × ((u : Trace) × (main os ("status" ∷ args) t ≡ some ((0, shown none), u)))
    unfolding main NotThere
    commands_find_nothing args =
        let o : Options = parse_options args default_options in
        let (r, e, (code, text)) = exec_finds_nothing o in
        let (n, exec_done) = session_lem "exec" o (0, executed r) e in
        let (p, terminate_done) = session_lem "terminate" o _ (terminate_finds_nothing o) in
        let (q, status_done) = session_lem "status" o _ (status_finds_nothing o) in
        (
          (r, n.trace, ground (arith, exec_done), code, text),
          (p.trace, ground (arith, terminate_done)),
          (q.trace, ground (arith, status_done)),
        )
