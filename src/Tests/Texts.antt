-- ===== src/Tests/Texts.antt =====
-- What the command line prints, and what the child of `fork` calls, at concrete inputs.
use aegis_sandbox.Prelude.{◌≡◌, refl, ℕ, String, true, false, [], ◌∷◌}
use aegis_sandbox.Prelude.Int.{pos, minus_one}
use aegis_sandbox.Prelude.Paths.{until_nul, join}
use aegis_sandbox.Core.{err_invalid_sandbox_id, status_to_string}
use aegis_sandbox.Sandbox.Steps.{new_instance}
use aegis_sandbox.Tests.Sandboxes.{instance}
use aegis_sandbox.Sandbox.Types.{empty_result}
use aegis_sandbox.Sandbox.Child.{child, opened_null, duplicated, closed_null, execv, exited}
use aegis_sandbox.Cli.Options.{default_options}
use aegis_sandbox.Cli.Main.{executed, terminate_failed}
use aegis_sandbox.Cli.Texts.{joined, stdout_of, stderr_of}

-- A run that fails prints no reason: `exec` leaves out the error text of the result.
executed_shows_no_error :
    (format_ms : ℕ → String)
    → stdout_of format_ms "aegis-cli" "exec" default_options
        (executed (record (empty_result "sbx-1") { stderr_output = "Error: Failed to connect" }))
      ≡ stdout_of format_ms "aegis-cli" "exec" default_options (executed (empty_result "sbx-1"))
unfolding stdout_of
executed_shows_no_error format_ms = refl

stderr_of-terminate_failed :
    (format_ms : ℕ → String)
    → stderr_of format_ms "aegis-cli" "terminate" default_options
        (terminate_failed err_invalid_sandbox_id)
      ≡ "\u{1b}[1;31m[AEGIS-CLI] Termination failed: Error: Invalid or Non-Existent Sandbox ID\u{1b}[0m\n"
unfolding stderr_of joined status_to_string
stderr_of-terminate_failed format_ms = refl

-- Without /dev/null the child keeps the streams of the manager.
child-instance :
    (child instance (pos 7) true
      ≡ opened_null (pos 7)
        ∷ duplicated (pos 7) 0
        ∷ duplicated (pos 7) 1
        ∷ duplicated (pos 7) 2
        ∷ closed_null (pos 7)
        ∷ execv "/usr/local/bin/firecracker"
            ("/usr/local/bin/firecracker" ∷ "--api-sock" ∷ instance.socket_path ∷ [])
        ∷ [])
    × (child instance minus_one false
        ≡ opened_null minus_one
          ∷ execv "/usr/local/bin/firecracker"
              ("/usr/local/bin/firecracker" ∷ "--api-sock" ∷ instance.socket_path ∷ [])
          ∷ exited 1
          ∷ [])
unfolding child new_instance join until_nul
child-instance = (refl, refl)
