-- ===== src/Guest/Limits.antt =====
-- The time limit that the agent sets, and its exit codes.
use aegis_sandbox.Prelude.{
  ℕ, zero, suc, ◌*◌, ◌≤◌, ◌<◌, ◌≡◌, ◌≢◌, ◌↔◌, ◌⊎◌, inl, inr, refl, subst, true, none, some, arith,
  String, ◌∷◌, ◌++◌, map, Option-cases,
}
use aegis_sandbox.Prelude.Int.{ℤ, pos, is_neg}
use aegis_sandbox.Guest.Agent.{
  ExecutionRequest, Decoded, undecoded, decoded, Finished, exit_error, other_error, GuestTrace,
  wrote_script, GuestOs, assignment, script_path, int64, time_limit, exit_status, response,
  run_script, write_script, handle_connection,
}

-- A positive number `n` of seconds up to 9223372036 gives the time limit in nanoseconds; a number `k` from
-- there up to 18446744073 gives a limit in the past, since the product does not fit into 64 bits.
pub time_limit_exact :
    (n k : ℕ)
    → 0 < n
    → n ≤ 9223372036
    → 9223372036 < k
    → k ≤ 18446744073
    → (time_limit (pos n) ≡ pos (n * 1000000000)) × (is_neg (time_limit (pos k)) ≡ true)
unfolding time_limit int64
time_limit_exact (suc n) (suc k) h i l u = (ground arith, ground arith)
time_limit_exact zero k h i l u = ground arith
time_limit_exact (suc n) zero h i l u = ground arith

-- What Go documents of `exec.ExitError`: it is no error of a command that ends with the exit code 0.
abbrev pub Documented : Finished → Type 0
Documented f = (c : ℤ) → f.error ≡ some (exit_error c) → c ≢ pos 0

exit_status_zero : (f : Finished) → Documented f → ((exit_status f).0 ≡ pos 0) ↔ (f.error ≡ none)
unfolding exit_status
exit_status_zero f h = elim (Option-cases f.error) [
  | inl fine ↦ (λ e. fine, λ e. ground (arith, fine))
  | inr (exit_error c, failed) ↦
      (λ e. absurd (h c failed (ground (arith, failed, e))), λ e. absurd ground (arith, failed, e))
  | inr (other_error m, failed) ↦
      (λ e. absurd ground (arith, failed, e), λ e. absurd ground (arith, failed, e))
]

pub Decoded-cases :
    (d : Decoded)
    → ((e : String) × (d ≡ undecoded e)) ⊎ ((req : ExecutionRequest) × (d ≡ decoded req))
Decoded-cases (undecoded e) = inl (e, refl)
Decoded-cases (decoded req) = inr (req, refl)

module _ (os : GuestOs) (decode : String → Decoded) (text : String) (t : GuestTrace) where
  abbrev path : String
  path = script_path (os.unix_nano t)

  -- The result of the command for a request.
  abbrev pub command_result : ExecutionRequest → Finished
  command_result req =
      let u = wrote_script path ∷ t in
      os.run u ("python3" ∷ path ∷ req.cli_args) (os.environ u ++ map assignment req.environment)
        (time_limit req.timeout_sec)

  -- If the runtime keeps to its documentation: the agent answers the exit code 0 exactly when the text is a
  -- request, its code could be written to a script, and the script has ended without an error.
  pub handle_connection_succeeds :
      ((req : ExecutionRequest) → Documented (command_result req))
      → ((handle_connection os decode text t).0.exit_code ≡ pos 0) ↔ (
          (req : ExecutionRequest) × (decode text ≡ decoded req)
          × (os.write_file t path req.code_payload ≡ none)
          × ((command_result req).error ≡ none))
  unfolding handle_connection write_script run_script response
  handle_connection_succeeds d = elim (Decoded-cases (decode text)) [
    | inl (e, bad) ↦
        (λ h. absurd ground (arith, bad, h), λ (req, good, _, _). absurd ground (arith, bad, good))
    | inr (req, good) ↦ elim (Option-cases (os.write_file t path req.code_payload)) [
      | inr (e, failed) ↦ (
        λ h. absurd ground (arith, good, failed, h),
        λ (other, same, written, _). absurd ground (arith, good, failed, same, written),
      )
      | inl written ↦
          let zero_code = exit_status_zero (command_result req) (d req) in
          (
            λ h. (req, good, written, zero_code.0 (ground (arith, good, written, h))),
            λ (other, same, _, fine).
                let e : other ≡ req = ground (arith, good, same) in
                ground (
                  arith,
                  good,
                  written,
                  zero_code.1 (subst (λ q. (command_result q).error ≡ none) e fine),
                ),
          )
    ]
  ]
