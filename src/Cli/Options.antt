-- ===== src/Cli/Options.antt =====
-- cmd/aegis-cli/main.cpp: the options of the command line.
use aegis_sandbox.Prelude.{ℕ, String, Option, none, some, List, [], ◌∷◌, str_eq, if◌then◌else◌}
use aegis_sandbox.Cli.Numbers.{atoi, to_uint32}

pub record Options : Type 0 where
  pub sandbox_id : String
  pub policy_name : String
  pub code_payload : String
  pub cpus : ℕ
  pub memory_mb : ℕ

abbrev pub default_options : Options
default_options = record {
  sandbox_id = "sbx-demo";
  policy_name = "strict_python";
  code_payload = "print('Hello from Aegis Isolated MicroVM!')";
  cpus = 1;
  memory_mb = 512;
}

-- An option that takes the next argument for its value, if it is one.
unfoldable pub set_option : String → String → Options → Option Options
set_option arg value o =
    if str_eq arg "--id"
    then some (record o { sandbox_id = value })
    else if str_eq arg "--policy"
    then some (record o { policy_name = value })
    else if str_eq arg "--code"
    then some (record o { code_payload = value })
    else if str_eq arg "--cpus"
    then some (record o { cpus = to_uint32 (atoi value) })
    else if str_eq arg "--mem"
    then some (record o { memory_mb = to_uint32 (atoi value) })
    else none

-- The loop over the arguments: any other is passed over.
unfoldable pub parse_options : List String → Options → Options
parse_options [] o = o
parse_options (arg ∷ []) o = o
parse_options (arg ∷ value ∷ rest) o = elim (set_option arg value o) [
  | none ↦ parse_options (value ∷ rest) o
  | some p ↦ parse_options rest p
]
