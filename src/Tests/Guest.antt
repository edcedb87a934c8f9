-- ===== src/Tests/Guest.antt =====
-- The guest agent, and the host that talks to it, at concrete inputs.
use aegis_sandbox.Prelude.{
  ◌*◌, ◌≡◌, ◌↔◌, refl, inl, inr, Bool-cases, String, true, false, none, some, [], ◌∷◌, length,
  lookup, str_eq, if◌then◌else◌, arith,
}
use aegis_sandbox.Prelude.Int.{pos, minus_one, is_neg, is_pos}
use aegis_sandbox.Prelude.Paths.{size, prefix, until_nul}
use aegis_sandbox.Os.{Os, Machine}
use aegis_sandbox.Sandbox.Types.{ExecutionResult, SandboxManager}
use aegis_sandbox.Sandbox.Manager.{execute_code}
use aegis_sandbox.Guest.Agent.{
  ExecutionRequest, ExecutionResponse, Decoded, undecoded, decoded, GuestOs, script_path,
  time_limit, int64, handle_connection, serve,
}
use aegis_sandbox.Guest.Scripts.{total, writes, removes, answers, closes, serve_clean}
use aegis_sandbox.Guest.Limits.{command_result, time_limit_exact, handle_connection_succeeds}
use aegis_sandbox.Guest.Answers.{ReachesAgent, runs, execute_code_any_answer}
use aegis_sandbox.Tests.Machines.{quiet_os}
use aegis_sandbox.Tests.Sandboxes.{instance, busy}

abbrev request : ExecutionRequest
request = record {
  code_payload = "print(1)";
  cli_args = [];
  environment = ("A", "1") ∷ [];
  timeout_sec = pos 5;
}

-- Reads one request; the code itself is no JSON.
abbrev decode : String → Decoded
decode text = if str_eq text "{}" then decoded request else undecoded "invalid character 'p'"

abbrev encode : ExecutionResponse → String
encode r = if str_eq r.error_string "" then "{\"exit_code\":0}" else "{\"exit_code\":-1}"

-- Every file is written, and every command succeeds.
abbrev guest : GuestOs
guest = record {
  now = λ t. length t;
  unix_nano = λ t. length t;
  environ = λ t. "PATH=/bin" ∷ [];
  write_file = λ t path content. none;
  run = λ t args env limit. record { out = "1"; err = ""; error = none; expired = false };
}

request_limit : time_limit request.timeout_sec ≡ pos 5000000000
unfolding time_limit int64
request_limit = refl

-- A limit of more than 292 years lies in the past, and one of more than 584 years is short.
limits_wrap :
    (is_neg (time_limit (pos 9223372037)) ≡ true) × (time_limit (pos 18446744074) ≡ pos 290448384)
unfolding time_limit int64
limits_wrap = (refl, refl)

time_limit_exact_example :
    (time_limit (pos 5) ≡ pos (5 * 1000000000)) × (is_neg (time_limit (pos 9223372037)) ≡ true)
time_limit_exact_example =
    time_limit_exact 5 9223372037 (omega arith) (omega arith) (omega arith) (omega arith)

handle_connection_succeeds_example :
    ((handle_connection guest decode "{}" []).0.exit_code ≡ pos 0) ↔ (
      (req : ExecutionRequest) × (decode "{}" ≡ decoded req)
      × (guest.write_file [] (script_path 0) req.code_payload ≡ none)
      × ((command_result guest decode "{}" [] req).error ≡ none))
handle_connection_succeeds_example =
    handle_connection_succeeds guest decode "{}" [] (λ req c e. absurd ground (arith, e))

serve_clean_example :
    let t = serve guest decode ("{}" ∷ "print(1)" ∷ []) in
    (total (writes "/tmp/agent_script_3.py") t ≡ total (removes "/tmp/agent_script_3.py") t)
    × (total answers t ≡ 2)
    × (total closes t ≡ 2)
serve_clean_example = serve_clean guest decode "/tmp/agent_script_3.py" ("{}" ∷ "print(1)" ∷ [])

-- Sockets read what the agent answers to "print(1)".
abbrev agent_os : Os
agent_os =
    let answer = encode (handle_connection guest decode "print(1)" []).0 in
    record quiet_os { read = λ t fd. (pos (size answer), answer) }

encode_filled : (r : ExecutionResponse) → is_pos (pos (size (encode r))) ≡ true
unfolding size
encode_filled r = elim (Bool-cases (str_eq r.error_string "")) [
  | inl empty ↦ rw empty refl
  | inr other ↦ rw other refl
]

agent_reached : ReachesAgent agent_os encode guest decode "print(1)" []
unfolding size
agent_reached = record {
  opens = λ t. refl;
  connects = λ t fd address. refl;
  reads = λ t fd. (refl, encode_filled (handle_connection guest decode "print(1)" []).0);
}

execute_code_any_answer_example :
    ((r : ExecutionResult) × (n : Machine SandboxManager) × (execute_code agent_os "agent-1"
          "print(1)" busy
        ≡ some (r, n))
      × (r.exit_code ≡ pos 0)
      × (r.stdout_output
          ≡ until_nul (prefix 8191 (encode (handle_connection guest decode "print(1)" []).0))))
    × ((e : String)
        → decode "print(1)" ≡ undecoded e
        → ((handle_connection guest decode "print(1)" []).0.exit_code ≡ minus_one)
          × (total runs (handle_connection guest decode "print(1)" []).1 ≡ total runs []))
unfolding lookup
execute_code_any_answer_example =
    execute_code_any_answer agent_os encode guest decode "print(1)" [] agent_reached "agent-1"
      instance busy refl refl refl
