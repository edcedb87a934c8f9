-- ===== src/Policy/Yaml.antt =====
-- src/policy/policy_engine.cpp: `load_from_yaml`, which takes a policy out of a text by regular
-- expressions.
use Prim.Native.Char.{code}
use aegis_sandbox.Prelude.{
  ℕ, zero, suc, ◌%◌, ◌^◌, String, Bool, true, false, Option, none, some, List, [], ◌∷◌, ltb, str_eq,
  if◌then◌else◌,
}
use aegis_sandbox.Prelude.Chars.{digits_value}
use aegis_sandbox.Prelude.Paths.{filename, stem_of, size}
use aegis_sandbox.Core.{Status, err_policy_violation}
use aegis_sandbox.Policy.Engine.{
  SecurityPolicy, empty_policy, PolicyEngine, register_policy, insert_resolved,
}
use aegis_sandbox.Policy.Regex.{
  char, space, digit, word, dashed, inside, many, either, one, star, optional, group, Regex, search,
}

-- The characters of a text, one after the other.
unfoldable pub literal : String → Regex → Regex
literal String.[] p = p
literal (String.◌∷◌ c s) p = one (char (code c)) ∷ literal s p

-- A key, `\s*:\s*`, and its value.
unfoldable pub key_regex : String → Regex → Regex
unfolding literal
key_regex key value = literal key (star space ∷ one (char b':') ∷ star space ∷ value)

pub name_regex : Regex
unfolding key_regex
name_regex =
    key_regex "policy_name" (optional (char b'"') ∷ group (many dashed) ∷ optional (char b'"') ∷ [])

pub flag_regex : String → Regex
unfolding key_regex
flag_regex key = key_regex key (group (either "true" "false") ∷ [])

pub timeout_regex : Regex
unfolding key_regex
timeout_regex = key_regex "max_execution_time_sec" (group (many digit) ∷ [])

unfoldable pub list_regex : String → Regex
unfolding key_regex
list_regex key = key_regex key (one (char b'[') ∷ group (many inside) ∷ one (char b']') ∷ [])

unfoldable pub token_regex : Regex
token_regex = optional (char b'"') ∷ group (many word) ∷ optional (char b'"') ∷ []

-- `match[1]` of a search.
unfoldable pub found : Regex → String → Option String
unfolding search
found p content = elim (search p content) [ none ↦ none | some (g, rest) ↦ some g ]

-- The groups that a `std::sregex_iterator` gives, at most as many as the fuel.
unfoldable pub tokens : ℕ → String → List String
unfolding token_regex search
tokens zero s = []
tokens (suc f) s = elim (search token_regex s) [ none ↦ [] | some (g, rest) ↦ g ∷ tokens f rest ]

unfoldable pub yaml_name : String → String → String
unfolding found name_regex filename stem_of
yaml_name yaml_path content = elim (found name_regex content) [
  | none ↦ stem_of (filename yaml_path)
  | some g ↦ g
]

pub yaml_flag : String → Bool → String → Bool
unfolding found flag_regex
yaml_flag key default content = elim (found (flag_regex key) content) [
  | none ↦ default
  | some g ↦ str_eq g "true"
]

-- `none` for a number that `std::stoul` rejects with an exception.
unfoldable pub yaml_timeout : ℕ → String → Option ℕ
unfolding found timeout_regex digits_value
yaml_timeout default content = elim (found timeout_regex content) [
  | none ↦ some default
  | some g ↦ let n = digits_value 0 g in if ltb n (2 ^ 64) then some (n % 2 ^ 32) else none
]

unfoldable pub yaml_syscalls : String → String → List ℕ
unfolding found list_regex size tokens insert_resolved
yaml_syscalls key content = elim (found (list_regex key) content) [
  | none ↦ []
  | some list ↦ insert_resolved (tokens (size list) list) []
]

-- The policy that a text describes.
unfoldable pub yaml_policy : String → String → ℕ → SecurityPolicy
yaml_policy yaml_path content timeout = record {
  policy_name = yaml_name yaml_path content;
  syscall_rule = record {
    allowed_syscalls = yaml_syscalls "allowed_sys_calls" content;
    blocked_syscalls = yaml_syscalls "blocked_sys_calls" content;
    default_allow = empty_policy.syscall_rule.default_allow;
  };
  network_rule = record (empty_policy.network_rule) {
    block_all_egress =
        yaml_flag "block_all_network_egress" empty_policy.network_rule.block_all_egress content;
    block_cloud_metadata =
        yaml_flag "block_cloud_metadata_ips" empty_policy.network_rule.block_cloud_metadata content;
  };
  max_execution_time_sec = timeout;
}

-- `there` is whether the path exists, and `file` the content if the file opens; `none` is the exception
-- of `std::stoul`, which leaves the engine as it was.
unfoldable pub load_from_yaml :
    Bool → Option String → PolicyEngine → String → Option (PolicyEngine × Status)
load_from_yaml false file e yaml_path = some (e, err_policy_violation)
load_from_yaml true none e yaml_path = some (e, err_policy_violation)
load_from_yaml true (some content) e yaml_path =
    elim (yaml_timeout empty_policy.max_execution_time_sec content) [
      | none ↦ none
      | some timeout ↦ some (register_policy e (yaml_policy yaml_path content timeout))
    ]
