-- ===== src/Guest/Answers.antt =====
-- What `execute_code` on the host makes of the agent's answers.
use aegis_sandbox.Prelude.{ℕ, ◌≡◌, String, true, false, some, ◌∷◌, lookup, arith}
use aegis_sandbox.Prelude.Int.{ℤ, pos, minus_one, is_neg, is_pos}
use aegis_sandbox.Prelude.Paths.{until_nul, prefix}
use aegis_sandbox.Os.{Os, Machine, Trace, opened_socket, connected, sent}
use aegis_sandbox.Sandbox.Types.{ExecutionResult, SandboxInstance, SandboxManager}
use aegis_sandbox.Sandbox.Steps.{ask_agent, with_answer, run_code, execute}
use aegis_sandbox.Sandbox.Manager.{with_lock, set_locked, execute_code}
use aegis_sandbox.Guest.Agent.{
  ExecutionResponse, Decoded, undecoded, ran, GuestTrace, GuestOs, handle_connection, GuestEvent,
}
use aegis_sandbox.Guest.Scripts.{total}

-- The host's system when it reaches an agent: sockets open and connect, and the bytes that wait on a socket
-- are the encoded answer of the agent to the text, of which a read takes some.
pub record ReachesAgent (os : Os) (encode : ExecutionResponse → String) (guest : GuestOs)
    (decode : String → Decoded) (code : String) (u : GuestTrace) : Type 0 where
  pub opens : (t : Trace) → is_neg (os.socket t) ≡ false
  pub connects : (t : Trace) (fd : ℤ) (address : String) → is_neg (os.connect t fd address) ≡ false
  pub reads :
      (t : Trace) (fd : ℤ)
      → let answer = encode (handle_connection guest decode code u).0 in
        ((os.read t fd).1 ≡ answer) × (is_pos (os.read t fd).0 ≡ true)

unfoldable pub runs : GuestEvent → ℕ
runs (ran args env limit) = 1
runs _ = 0

module _ (os : Os) (encode : ExecutionResponse → String) (guest : GuestOs)
    (decode : String → Decoded) (code : String) (u : GuestTrace)
    (h : ReachesAgent os encode guest decode code u) where
  -- What the agent answers, and its encoding.
  abbrev agent_response : ExecutionResponse
  agent_response = (handle_connection guest decode code u).0

  abbrev output : String
  output = until_nul (prefix 8191 (encode agent_response))

  ask_agent-output :
      (path : String) (m : Machine SandboxManager) → (ask_agent os path code m).0 ≡ some output
  unfolding ask_agent
  ask_agent-output path m =
      let fd : ℤ = os.socket m.trace in
      let address : String = prefix 107 path in
      let t : Trace = opened_socket fd ∷ m.trace in
      let w : Trace = connected fd address (os.connect t fd address) ∷ t in
      let v : Trace = sent fd code (os.write w fd code) ∷ w in
      let (said, some_bytes) = h.reads v fd in
      ground (arith, h.opens m.trace, h.connects t fd address, said, some_bytes)

  unparsed_runs_nothing :
      (e : String)
      → decode code ≡ undecoded e
      → (agent_response.exit_code ≡ minus_one)
        × (total runs (handle_connection guest decode code u).1 ≡ total runs u)
  unfolding handle_connection total runs
  unparsed_runs_nothing e bad = (ground (arith, bad), ground (arith, bad))

  execute-output :
      (id : String) (i : SandboxInstance) (m : Machine SandboxManager)
      → lookup id m.state.sandboxes ≡ some i
      → i.is_active ≡ true
      → ((execute os id code m).0.exit_code ≡ pos 0)
        × ((execute os id code m).0.stdout_output ≡ output)
  unfolding execute run_code with_answer
  execute-output id i m found active =
      let said = ask_agent-output i.guest_vsock_path m in
      (ground (arith, found, active, said), ground (arith, found, active, said))

  -- If the host reaches the agent, and the sandbox is active: `execute_code` reports the exit code 0 with the
  -- first 8191 bytes of the agent's encoded answer for the output, whatever exit code the agent has answered. Code that is no
  -- JSON request, which the host sends as it is, is answered with -1 and never run.
  pub execute_code_any_answer :
      (id : String) (i : SandboxInstance) (m : Machine SandboxManager)
      → m.state.locked ≡ false
      → lookup id m.state.sandboxes ≡ some i
      → i.is_active ≡ true
      → ((r : ExecutionResult) × (n : Machine SandboxManager) × (execute_code os id code m
            ≡ some (r, n))
          × (r.exit_code ≡ pos 0)
          × (r.stdout_output ≡ output))
        × ((e : String)
            → decode code ≡ undecoded e
            → (agent_response.exit_code ≡ minus_one)
              × (total runs (handle_connection guest decode code u).1 ≡ total runs u))
  unfolding execute_code with_lock
  execute_code_any_answer id i m free found active =
      let l : Machine SandboxManager = set_locked true m in
      let (status, text) = execute-output id i l found active in
      (
        (
          (execute os id code l).0,
          set_locked false (execute os id code l).1,
          ground arith,
          status,
          text,
        ),
        unparsed_runs_nothing,
      )
