-- ===== src/Policy/Permissions.antt =====
-- What a policy that `load_from_yaml` has loaded permits, in terms of its text.
use aegis_sandbox.Prelude.{
  ℕ, ◌≡◌, ◌≢◌, ◌↔◌, inl, inr, refl, sym, ◌∙◌, subst, String, true, false, some, List, [], arith,
  contains, Any, Option-cases, Bool-cases,
}
use aegis_sandbox.Prelude.Paths.{size}
use aegis_sandbox.Core.{Status, success}
use aegis_sandbox.Policy.Syscalls.{resolve_syscall_name}
use aegis_sandbox.Policy.Engine.{
  PolicyEngine, SecurityPolicy, empty_policy, register_policy, insert_resolved, eval_syscall,
  eval_syscall_rule,
}
use aegis_sandbox.Policy.Defaults.{contains-insert_resolved}
use aegis_sandbox.Policy.Yaml.{
  found, list_regex, tokens, yaml_name, yaml_timeout, yaml_syscalls, yaml_policy, load_from_yaml,
}
use aegis_sandbox.Policy.Tokens.{words, tokens_lem}
use aegis_sandbox.Policy.Loading.{get_policy-eval_syscall, registered}

-- A number is in the list of a key: the key has a bracketed list in the text, and a word of the list is the
-- name of the number.
pub Lists : String → String → ℕ → Type 0
Lists key content nr =
    (list : String) × (found (list_regex key) content ≡ some list)
    × Any (λ name. resolve_syscall_name name ≡ some nr) (words list)

contains-words :
    (list : String) (nr : ℕ)
    → (contains nr (insert_resolved (tokens (size list) list) []) ≡ true)
      ↔ Any (λ name. resolve_syscall_name name ≡ some nr) (words list)
unfolding contains
contains-words list nr = rw (tokens_lem (size list) list (omega arith)) (
  λ h. elim ((contains-insert_resolved nr (words list) []).0 h) [
    | inl a ↦ a
    | inr e ↦ absurd ground (arith, e)
  ],
  λ a. (contains-insert_resolved nr (words list) []).1 (inl a),
)

contains-yaml_syscalls :
    (key content : String) (nr : ℕ)
    → (contains nr (yaml_syscalls key content) ≡ true) ↔ Lists key content nr
unfolding Lists contains yaml_syscalls
contains-yaml_syscalls key content nr = elim (Option-cases (found (list_regex key) content)) [
  | inl missing ↦
      (λ h. absurd ground (arith, missing, h), λ (list, e, a). absurd ground (arith, missing, e))
  | inr (list, there) ↦
      let same : yaml_syscalls key content ≡ insert_resolved (tokens (size list) list) [] =
        rw (yaml_syscalls, there) refl in
      (
        λ h. (
          list,
          there,
          (contains-words list nr).0 (subst (λ set. contains nr set ≡ true) same h),
        ),
        λ (other, e, a).
            let o : other ≡ list = ground (arith, there, e) in
            subst (λ set. contains nr set ≡ true) (sym same)
              ((contains-words list nr).1
                (subst (λ l. Any (λ name. resolve_syscall_name name ≡ some nr) (words l)) o a)),
      )
]

-- A rule that denies by default permits what is allowed and not blocked.
denying_rule :
    (allowed blocked : List ℕ) (nr : ℕ)
    → (eval_syscall_rule
          (record { allowed_syscalls = allowed; blocked_syscalls = blocked; default_allow = false })
          nr
        ≡ true)
      ↔ ((contains nr allowed ≡ true) × (contains nr blocked ≢ true))
unfolding eval_syscall_rule
denying_rule allowed blocked nr = (
  λ h. (ground arith, λ b. ground (arith, b, h)),
  λ h. elim (Bool-cases (contains nr blocked)) [
    | inl b ↦ absurd (h.1 b)
    | inr free ↦ ground (arith, h.0, free)
  ],
)

-- A policy text whose time limit, if it has one, is below 2 ^ 64: loading it succeeds, and its policy then permits a
-- syscall exactly when the name of the number is a word of the bracketed list "allowed_sys_calls"
-- and not of the bracketed list "blocked_sys_calls".
pub load_from_yaml_permits :
    (e : PolicyEngine) (yaml_path content : String) (timeout : ℕ)
    → yaml_timeout empty_policy.max_execution_time_sec content ≡ some timeout
    → (r : PolicyEngine × Status) × (load_from_yaml true (some content) e yaml_path ≡ some r)
      × (r.1 ≡ success)
      × ((nr : ℕ)
          → (eval_syscall r.0 (yaml_name yaml_path content) nr ≡ true)
            ↔ (Lists "allowed_sys_calls" content nr × ¬ Lists "blocked_sys_calls" content nr))
unfolding load_from_yaml yaml_policy register_policy
load_from_yaml_permits e yaml_path content timeout t =
    let p : SecurityPolicy = yaml_policy yaml_path content timeout in
    (
      register_policy e p,
      rw (load_from_yaml, t) refl,
      refl,
      λ nr.
          let decides =
            get_policy-eval_syscall (register_policy e p).0 p.policy_name p nr (registered e p) in
          let rule =
            denying_rule (yaml_syscalls "allowed_sys_calls" content)
              (yaml_syscalls "blocked_sys_calls" content) nr in
          let a = contains-yaml_syscalls "allowed_sys_calls" content nr in
          let b = contains-yaml_syscalls "blocked_sys_calls" content nr in
          (
            λ h. let (x, y) = rule.0 (sym decides ∙ h) in (a.0 x, λ l. y (b.1 l)),
            λ (x, y). decides ∙ rule.1 (a.1 x, λ h. y (b.0 h)),
          ),
    )
