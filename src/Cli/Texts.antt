-- ===== src/Cli/Texts.antt =====
-- cmd/aegis-cli/main.cpp: what a run prints. `format_ms` is `std::format("{:.2f}", …)` of the milliseconds
-- that are so many nanoseconds.
use aegis_sandbox.Prelude.{
  ℕ, String, append, Option, none, some, List, [], ◌∷◌, decimal, if◌then◌else◌,
}
use aegis_sandbox.Core.{SandboxMetadata, status_to_string, get_version, to_string}
use aegis_sandbox.Cgroup.Manager.{decimal_int}
use aegis_sandbox.Cli.Options.{Options}
use aegis_sandbox.Cli.Main.{
  Report, usage, version_shown, unknown_command, terminated, created, create_failed, executed,
  terminate_failed, shown,
}

-- The parts one after the other.
unfoldable pub joined : List String → String
joined [] = ""
joined (s ∷ rest) = append s (joined rest)

-- "\033"
abbrev esc : String
esc = "\u{1b}"

abbrev version : String
version = to_string get_version

-- `print_header`
unfoldable pub header : String
unfolding joined
header = joined (
    esc ∷ "[1;36m" ∷ "   ___   _______ ____ ______   _____ ___   _  ______  ___  OX\n"
    ∷ "  / _ \\ / __/ _ /  _/ __/  | / / _ / _ \\/ |/ / _ \\/ _ \\\n"
    ∷ " / __ |/ _// __// // _// /| |/ __ / // /    / // / // /\n"
    ∷ "/_/ |_/___/_/  /___/___/_/ |_/_/ |_/____/_/|_/____/____/\n" ∷ esc ∷ "[0m" ∷ esc
    ∷ "[1;32mSub-10ms MicroVM & eBPF Isolation Engine for AI Agents (v" ∷ version ∷ ")" ∷ esc
    ∷ "[0m\n\n" ∷ [])

-- `print_usage`
unfoldable pub usage_text : String → String
unfolding joined header
usage_text prog_name = joined (
    header ∷ "Usage:\n" ∷ "  " ∷ prog_name ∷ " <command> [options]\n\n" ∷ "Commands:\n"
    ∷ "  create    Create and boot a new isolated Firecracker microVM sandbox\n"
    ∷ "  exec      Execute untrusted AI agent code (Python/Bash) inside a sandbox\n"
    ∷ "  terminate Destroy and wipe an active sandbox instance\n"
    ∷ "  status    Display metadata for active sandboxes and eBPF enforcement maps\n"
    ∷ "  version   Display version details and build information\n\n" ∷ "Options:\n"
    ∷ "  --id <string>         Sandbox ID (default: sbx-demo)\n"
    ∷ "  --policy <string>     Security policy name (default: strict_python)\n"
    ∷ "  --code <string>       Code payload string to execute\n"
    ∷ "  --cpus <int>          vCPU core count limit (default: 1)\n"
    ∷ "  --mem <int>           RAM limit in Megabytes (default: 512)\n\n" ∷ "Examples:\n" ∷ "  "
    ∷ prog_name ∷ " create --id sbx-test --policy strict_python --cpus 2 --mem 1024\n" ∷ "  "
    ∷ prog_name ∷ " exec --id sbx-test --code \"print('Hello from aegis microVM')\"\n" ∷ "  "
    ∷ prog_name ∷ " terminate --id sbx-test\n" ∷ [])

-- What `signal_handler` prints before it wipes the sandboxes.
unfoldable pub signal_text : ℕ → String
unfolding joined
signal_text signal = joined (
    "\n"
    ∷ esc
    ∷ "[1;33m[AEGIS-CLI] Signal "
    ∷ decimal signal
    ∷ " received. Wiping active sandboxes..."
    ∷ esc
    ∷ "[0m\n"
    ∷ [])

module _ (format_ms : ℕ → String) (prog_name command : String) (o : Options) where
  abbrev boot_time : Option SandboxMetadata → String
  boot_time none = format_ms 0
  boot_time (some metadata) = format_ms metadata.boot_time_ns

  abbrev booting : String
  booting = joined (
      header ∷ esc ∷ "[1;34m[AEGIS-CLI] Booting MicroVM Sandbox [" ∷ o.sandbox_id ∷ "]..." ∷ esc
      ∷ "[0m\n" ∷ [])

  abbrev terminating : String
  terminating =
      joined (
        esc ∷ "[1;33m[AEGIS-CLI] Terminating Sandbox [" ∷ o.sandbox_id ∷ "]..." ∷ esc ∷ "[0m\n"
        ∷ [])

  abbrev querying : String
  querying =
      joined
        (header ∷ esc ∷ "[1;34m[AEGIS-CLI] Querying Active Sandbox Status..." ∷ esc ∷ "[0m\n" ∷ [])

  unfoldable pub stdout_of : Report → String
  unfolding joined header usage_text
  stdout_of usage = usage_text prog_name
  stdout_of version_shown = header
  stdout_of unknown_command = usage_text prog_name
  stdout_of (created metadata) = joined (
      booting
      ∷ esc
      ∷ "[1;32m[AEGIS-CLI] Sandbox Created Successfully!"
      ∷ esc
      ∷ "[0m\n"
      ∷ "  • Sandbox ID  : "
      ∷ o.sandbox_id
      ∷ "\n"
      ∷ "  • Boot Time   : "
      ∷ boot_time metadata
      ∷ " ms (Snapshot Restore)\n"
      ∷ "  • vCPUs / RAM : "
      ∷ decimal o.cpus
      ∷ " Core(s) / "
      ∷ decimal o.memory_mb
      ∷ " MB\n"
      ∷ "  • Policy      : "
      ∷ o.policy_name
      ∷ " (eBPF Active)\n"
      ∷ [])
  stdout_of (create_failed status) = booting
  stdout_of (executed result) = joined (
      esc
      ∷ "[1;34m[AEGIS-CLI] Executing code in Sandbox ["
      ∷ o.sandbox_id
      ∷ "]..."
      ∷ esc
      ∷ "[0m\n"
      ∷ "\n"
      ∷ esc
      ∷ "[1;36m--- [Execution Output] ---"
      ∷ esc
      ∷ "[0m\n"
      ∷ result.stdout_output
      ∷ "\n"
      ∷ esc
      ∷ "[1;36m--------------------------"
      ∷ esc
      ∷ "[0m\n"
      ∷ "  • Exit Code      : "
      ∷ decimal_int result.exit_code
      ∷ "\n"
      ∷ "  • Execution Time : "
      ∷ format_ms result.execution_time_ns
      ∷ " ms\n"
      ∷ "  • eBPF Violations: "
      ∷ (if result.security_violation_triggered then "YES (Blocked)" else "None (Clean)")
      ∷ "\n"
      ∷ [])
  stdout_of terminated = joined (
      terminating ∷ esc ∷ "[1;32m[AEGIS-CLI] Sandbox Terminated & Memory Wiped." ∷ esc ∷ "[0m\n"
      ∷ [])
  stdout_of (terminate_failed status) = terminating
  stdout_of (shown none) = joined (querying ∷ "No active sandboxes found.\n" ∷ [])
  stdout_of (shown (some metadata)) = joined (
      querying
      ∷ "Active Sandbox: "
      ∷ metadata.sandbox_id
      ∷ " | Boot: "
      ∷ format_ms metadata.boot_time_ns
      ∷ "ms | State: Running\n"
      ∷ [])

  unfoldable pub stderr_of : Report → String
  unfolding joined
  stderr_of (create_failed status) = joined (
      esc
      ∷ "[1;31m[AEGIS-CLI] Failed to create sandbox: "
      ∷ status_to_string status
      ∷ esc
      ∷ "[0m\n"
      ∷ [])
  stderr_of (terminate_failed status) = joined (
      esc ∷ "[1;31m[AEGIS-CLI] Termination failed: " ∷ status_to_string status ∷ esc ∷ "[0m\n" ∷ [])
  stderr_of unknown_command =
      joined (esc ∷ "[1;31m[AEGIS-CLI] Unknown command: " ∷ command ∷ esc ∷ "[0m\n\n" ∷ [])
  stderr_of _ = ""
