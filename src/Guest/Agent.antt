-- ===== src/Guest/Agent.antt =====
-- guest/cmd/agent/main.go: `handleConnection` and the loop that accepts connections. Go's `encoding/json`
-- and what the guest's system does are parameters.
use aegis_sandbox.Prelude.{
  ℕ, zero, suc, ◌-◌, ◌*◌, ◌%◌, ◌^◌, String, append, Bool, Option, none, some, List, [], ◌∷◌, ◌++◌,
  map, Assoc, decimal, ltb, if◌then◌else◌,
}
use aegis_sandbox.Prelude.Int.{ℤ, pos, negsuc, minus_one}

pub record ExecutionRequest : Type 0 where
  pub code_payload : String
  pub cli_args : List String
  pub environment : Assoc String
  pub timeout_sec : ℤ

-- The duration in nanoseconds, of which the source makes milliseconds.
pub record ExecutionResponse : Type 0 where
  pub exit_code : ℤ
  pub stdout : String
  pub stderr : String
  pub duration_ns : ℕ
  pub error_string : String

-- What `Decode` leaves: an error, or a request.
pub data Decoded : Type 0 where
  undecoded : String → Decoded
  decoded : ExecutionRequest → Decoded

-- An error of `cmd.Run`: an `*exec.ExitError`, or another one.
pub data RunError : Type 0 where
  exit_error : ℤ → RunError
  other_error : String → RunError

pub record Finished : Type 0 where
  pub out : String
  pub err : String
  pub error : Option RunError
  -- `ctx.Err() == context.DeadlineExceeded`
  pub expired : Bool

pub data GuestEvent : Type 0 where
  -- A file that `os.WriteFile` has written, and one that it could not write.
  wrote_script unwritten_script : String → GuestEvent
  -- The arguments, the environment and the time limit of a command.
  ran : List String → List String → ℤ → GuestEvent
  answered : ExecutionResponse → GuestEvent
  removed_script : String → GuestEvent
  closed_connection : GuestEvent

abbrev pub GuestTrace : Type 0
GuestTrace = List GuestEvent

-- What the guest's system answers, after all that has happened.
pub record GuestOs : Type 0 where
  -- The clock in nanoseconds.
  pub now : GuestTrace → ℕ
  -- The clock again, for the name of a script: it is read after `now`.
  pub unix_nano : GuestTrace → ℕ
  pub environ : GuestTrace → List String
  -- The error of `os.WriteFile`, if there is one.
  pub write_file : GuestTrace → String → String → Option String
  pub run : GuestTrace → List String → List String → ℤ → Finished

-- An int64 from a number.
unfoldable pub int64 : ℕ → ℤ
int64 n = let w = n % 2 ^ 64 in if ltb w (2 ^ 63) then pos w else negsuc (2 ^ 64 - w - 1)

-- The time limit in nanoseconds: that of the request if it is positive, and 15 seconds otherwise.
unfoldable pub time_limit : ℤ → ℤ
unfolding int64
time_limit (pos zero) = pos 15000000000
time_limit (pos (suc n)) = int64 (suc n * 1000000000)
time_limit (negsuc n) = pos 15000000000

unfoldable pub script_path : ℕ → String
script_path time = append "/tmp/agent_script_" (append (decimal time) ".py")

-- `fmt.Sprintf("%s=%s", k, v)`
abbrev pub assignment : String × String → String
assignment (k, v) = append k (append "=" v)

-- The exit code and the error text.
unfoldable pub exit_status : Finished → ℤ × String
exit_status f = elim f.error [
  | none ↦ (pos 0, "")
  | some e ↦
      if f.expired
      then (pos 124, "Execution timed out inside guest microVM")
      else elim e [ exit_error code ↦ (code, "") | other_error text ↦ (minus_one, text) ]
]

abbrev pub failure : String → ExecutionResponse
failure text = record {
  exit_code = minus_one;
  stdout = "";
  stderr = "";
  duration_ns = 0;
  error_string = text;
}

unfoldable pub response : ℕ → Finished → ExecutionResponse
unfolding exit_status
response duration f = record {
  exit_code = (exit_status f).0;
  stdout = f.out;
  stderr = f.err;
  duration_ns = duration;
  error_string = (exit_status f).1;
}

module _ (os : GuestOs) where
  -- What follows a script that is written: the command, the answer, and the deferred removal.
  unfoldable pub run_script :
      ExecutionRequest → ℕ → String → GuestTrace → ExecutionResponse × GuestTrace
  unfolding time_limit response
  run_script req start path t =
      let args = "python3" ∷ path ∷ req.cli_args in
      let env = os.environ t ++ map assignment req.environment in
      let f = os.run t args env (time_limit req.timeout_sec) in
      let u = ran args env (time_limit req.timeout_sec) ∷ t in
      let resp = response (os.now u - start) f in (resp, removed_script path ∷ answered resp ∷ u)

  unfoldable pub write_script : ExecutionRequest → GuestTrace → ExecutionResponse × GuestTrace
  unfolding run_script script_path
  write_script req t =
      let path = script_path (os.unix_nano t) in
      elim (os.write_file t path req.code_payload) [
        | none ↦ run_script req (os.now t) path (wrote_script path ∷ t)
        | some text ↦
            let resp = failure (append "Failed to write temporary python script: " text) in
            (resp, answered resp ∷ unwritten_script path ∷ t)
      ]

  -- A connection that brings a text. The deferred `Close` comes last.
  unfoldable pub handle_connection :
      (String → Decoded) → String → GuestTrace → ExecutionResponse × GuestTrace
  unfolding write_script
  handle_connection decode text t = close (elim (decode text) [
    | undecoded e ↦
        let resp = failure (append "Failed to decode JSON execution request: " e) in
        (resp, answered resp ∷ t)
    | decoded req ↦ write_script req t
  ])
    where
      close : ExecutionResponse × GuestTrace → ExecutionResponse × GuestTrace
      close (resp, u) = (resp, closed_connection ∷ u)

  -- The loop of `main` over connections that come one after the other, the newest first.
  unfoldable pub serve : (String → Decoded) → List String → GuestTrace
  unfolding handle_connection
  serve decode [] = []
  serve decode (text ∷ rest) = (handle_connection decode text (serve decode rest)).1
