-- ===== src/Tests/Handlers.antt =====
-- Two connections of the agent at once, at concrete times.
use aegis_sandbox.Prelude.{
  ℕ, ◌<◌, ◌^◌, eq_refl, ◌≡◌, refl, String, Option, none, some, [], ◌∷◌, All, arith,
}
use aegis_sandbox.Prelude.Int.{pos}
use aegis_sandbox.Guest.Agent.{ExecutionRequest, script_path}
use aegis_sandbox.Guest.Handlers.{
  Agent, put_file, accepts, reads_clock, writes, runs, Reaches, starting, next,
}
use aegis_sandbox.Guest.Stamps.{IsDistinct}
use aegis_sandbox.Guest.Separation.{handlers_run_own}

abbrev request : String → ExecutionRequest
request code = record { code_payload = code; cli_args = []; environment = []; timeout_sec = pos 5 }

abbrev no_files : String → Option String
no_files path = none

-- Both have read the clock and written their scripts, and the first runs its one.
abbrev meeting : (t u : ℕ) → t < 2 ^ 63 → u < 2 ^ 63 → (a : Agent) × Reaches no_files a
meeting t u h k = (
  _,
  next
      (next
        (next
          (next
            (next
              (next (next starting (accepts 0 (request "a") refl)) (accepts 1 (request "b") refl))
              (reads_clock 0 (request "a") t refl h))
            (reads_clock 1 (request "b") u refl k))
          (writes 0 (request "a") t refl))
        (writes 1 (request "b") u refl))
      (runs 0 (request "a") t
        (put_file (put_file no_files (script_path t) (some "a")) (script_path u) (some "b")) refl
        (λ v. refl)),
)

-- At one time the first runs the code of the second.
meeting_mixes : (t : ℕ) (h : t < 2 ^ 63) → (meeting t t h h).0.ran ≡ ("a", some "b") ∷ []
meeting_mixes t h = ground (arith, eq_refl (script_path t))

abbrev apart : (a : Agent) × Reaches no_files a
apart = meeting 1 2 (omega arith) (omega arith)

apart_IsDistinct : IsDistinct apart.0
apart_IsDistinct i j time e f = ground (arith, e, f)

handlers_run_own_example : All (λ e. e.1 ≡ some e.0) apart.0.ran
handlers_run_own_example = handlers_run_own no_files apart.0 apart.1 apart_IsDistinct
