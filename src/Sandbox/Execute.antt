-- ===== src/Sandbox/Execute.antt =====
-- What `execute_code` does.
use aegis_sandbox.Prelude.{
  ◌≡◌, ◌⊎◌, inl, inr, String, true, false, some, ◌∷◌, arith, lookup, Option-cases,
}
use aegis_sandbox.Prelude.Int.{ℤ, pos, is_pos, is_neg, minus_one}
use aegis_sandbox.Os.{Os, Trace, Machine, opened_socket, connected, sent, received, closed}
use aegis_sandbox.Prelude.Paths.{prefix}
use aegis_sandbox.Sandbox.Types.{ExecutionResult, SandboxInstance, SandboxManager}
use aegis_sandbox.Sandbox.Steps.{ask_agent, with_answer, run_code, execute}
use aegis_sandbox.Sandbox.Manager.{with_lock, set_locked, execute_code}

module _ (os : Os) where
  pub ask_agent-state :
      (path code : String) (m : Machine SandboxManager)
      → (ask_agent os path code m).1.state ≡ m.state
  unfolding ask_agent
  ask_agent-state path code m = ground arith

  -- The socket at the path was connected, the code was sent to it, and bytes were read from it: the calls
  -- behind the trace `t`, the newest first.
  abbrev pub Conversed : String → String → Trace → Trace → Type 0
  Conversed path code t u =
      (fd : ℤ) × (rc : ℤ) × (written : ℤ) × (count : ℤ) × (is_neg rc ≡ false)
      × (is_pos count ≡ true)
      × (u
          ≡ closed fd
            ∷ received fd count
            ∷ sent fd code written
            ∷ connected fd (prefix 107 path) rc
            ∷ opened_socket fd
            ∷ t)

  -- An answer of the agent is one that was read from its socket.
  ask_agent-received :
      (path code : String) (m : Machine SandboxManager) (text : String)
      → (ask_agent os path code m).0 ≡ some text
      → Conversed path code m.trace (ask_agent os path code m).1.trace
  unfolding ask_agent
  ask_agent-received path code m text h =
      let fd : ℤ = os.socket m.trace in
      let address : String = prefix 107 path in
      let t : Trace = opened_socket fd ∷ m.trace in
      let u : Trace = connected fd address (os.connect t fd address) ∷ t in
      let v : Trace = sent fd code (os.write u fd code) ∷ u in
      (
        fd,
        os.connect t fd address,
        os.write u fd code,
        (os.read v fd).0,
        ground arith,
        ground arith,
        ground arith,
      )

  execute-state :
      (id code : String) (m : Machine SandboxManager) → (execute os id code m).1.state ≡ m.state
  unfolding execute run_code
  execute-state id code m = elim (Option-cases (lookup id m.state.sandboxes)) [
    | inl unknown ↦ ground arith
    | inr (i, found) ↦ ground (arith, found, ask_agent-state i.guest_vsock_path code m)
  ]

  -- What a result on the machine `m` that leaves the machine `n` tells.
  pub record Reported (id code : String) (m n : Machine SandboxManager) (r : ExecutionResult)
      : Type 0 where
    pub of_sandbox : r.sandbox_id ≡ id
    pub kept : n.state ≡ m.state
    pub status : (r.exit_code ≡ pos 0) ⊎ (r.exit_code ≡ minus_one)
    pub answered :
        r.exit_code ≡ pos 0
        → (i : SandboxInstance) × (lookup id m.state.sandboxes ≡ some i)
          × (i.is_active ≡ true)
          × Conversed i.guest_vsock_path code m.trace n.trace
    pub silent : r.exit_code ≡ minus_one → r.stdout_output ≡ ""
    pub unflagged : r.security_violation_triggered ≡ false

  module _ (id code : String) (m : Machine SandboxManager) where
    abbrev outcome : ExecutionResult × Machine SandboxManager
    outcome = execute os id code m

    outcome_status :
        (outcome.0.sandbox_id ≡ id)
        × ((outcome.0.exit_code ≡ pos 0) ⊎ (outcome.0.exit_code ≡ minus_one))
        × (outcome.0.exit_code ≡ minus_one → outcome.0.stdout_output ≡ "")
        × (outcome.0.security_violation_triggered ≡ false)
    unfolding execute run_code with_answer
    outcome_status = (ground arith, ground arith, λ h. ground arith, ground arith)

    outcome_answered :
        outcome.0.exit_code ≡ pos 0
        → (i : SandboxInstance) × (lookup id m.state.sandboxes ≡ some i)
          × (i.is_active ≡ true)
          × Conversed i.guest_vsock_path code m.trace outcome.1.trace
    unfolding execute run_code with_answer
    outcome_answered h = elim (Option-cases (lookup id m.state.sandboxes)) [
      | inl unknown ↦ ground arith
      | inr (i, found) ↦ elim (Option-cases (ask_agent os i.guest_vsock_path code m).0) [
        | inl silent ↦ ground (arith, found, silent)
        | inr (text, said) ↦
            let (fd, rc, written, count, joined, positive, calls) =
              ask_agent-received i.guest_vsock_path code m text said in
            (
              i,
              found,
              ground (arith, found),
              (fd, rc, written, count, joined, positive, ground (arith, found, calls)),
            )
      ]
    ]

  -- On a manager whose mutex is free `execute_code` returns and keeps the state. The exit code is 0 or -1:
  -- 0 only if the sandbox is there and active, its agent's socket was connected, the code was sent to it and
  -- bytes were read from it, and nothing else was called but the close; with -1 the output is empty. No result ever reports a security violation.
  pub execute_code_outcome :
      (id code : String) (m : Machine SandboxManager)
      → m.state.locked ≡ false
      → (r : ExecutionResult) × (n : Machine SandboxManager) × (execute_code os id code m
          ≡ some (r, n))
        × Reported id code m n r
  unfolding execute_code with_lock
  execute_code_outcome id code m free =
      let l : Machine SandboxManager = set_locked true m in
      (
        (execute os id code l).0,
        set_locked false (execute os id code l).1,
        ground arith,
        record {
          of_sandbox = (outcome_status id code l).0;
          kept = ground (arith, execute-state id code l);
          status = (outcome_status id code l).1;
          answered = outcome_answered id code l;
          silent = (outcome_status id code l).2;
          unflagged = (outcome_status id code l).3;
        },
      )
