-- ===== src/Policy/Loading.antt =====
-- What `load_from_yaml` does to the engine.
use aegis_sandbox.Prelude.{
  ℕ, ◌≡◌, refl, ◌∙◌, String, Bool, true, false, Option, none, some, arith, str_eq,
  lookup-assign_self, Option-cases, ◌⊎◌, inl, inr, ◌<◌, ◌^◌, if◌then◌else◌, contains,
}
use aegis_sandbox.Core.{Status, success, err_policy_violation}
use aegis_sandbox.Policy.Engine.{
  PolicyEngine, SecurityPolicy, empty_policy, register_policy, eval_syscall, eval_syscall_rule,
  get_policy,
}
use aegis_sandbox.Policy.Decisions.{get_policy-register_policy}
use aegis_sandbox.Policy.Yaml.{
  timeout_regex, found, yaml_name, yaml_timeout, yaml_policy, load_from_yaml,
}
use aegis_sandbox.Policy.Brackets.{has, no_brackets}

pub get_policy-eval_syscall :
    (e : PolicyEngine) (name : String) (p : SecurityPolicy) (nr : ℕ)
    → get_policy e name ≡ some p
    → eval_syscall e name nr ≡ eval_syscall_rule p.syscall_rule nr
unfolding get_policy eval_syscall
get_policy-eval_syscall e name p nr h = rw (eval_syscall, h) refl

pub registered :
    (e : PolicyEngine) (p : SecurityPolicy)
    → get_policy (register_policy e p).0 p.policy_name ≡ some p
unfolding get_policy register_policy
registered e p = lookup-assign_self p.policy_name p e.policies

yaml_policy-denies :
    (yaml_path content : String) (timeout nr : ℕ)
    → has b'[' content ≡ false
    → eval_syscall_rule (yaml_policy yaml_path content timeout).syscall_rule nr ≡ false
unfolding eval_syscall_rule yaml_policy contains
yaml_policy-denies yaml_path content timeout nr h =
    rw (no_brackets "allowed_sys_calls" content h, no_brackets "blocked_sys_calls" content h) refl

yaml_timeout-lt :
    (content : String) (n : ℕ)
    → yaml_timeout empty_policy.max_execution_time_sec content ≡ some n
    → n < 2 ^ 32
unfolding yaml_timeout
yaml_timeout-lt content n h = elim (Option-cases (found timeout_regex content)) [
  | inl missing ↦ ground arith
  | inr (g, read) ↦ ground arith
]

-- A policy text whose time limit, if it has one, is below 2 ^ 64, and that has no opening bracket, as
-- one that writes its lists line by line: loading it succeeds, and the policy of its name then
-- denies every syscall.
load_from_yaml_no_brackets :
    (e : PolicyEngine) (yaml_path content : String) (timeout : ℕ)
    → yaml_timeout empty_policy.max_execution_time_sec content ≡ some timeout
    → has b'[' content ≡ false
    → (r : PolicyEngine × Status) × (load_from_yaml true (some content) e yaml_path ≡ some r)
      × (r.1 ≡ success)
      × ((nr : ℕ) → eval_syscall r.0 (yaml_name yaml_path content) nr ≡ false)
unfolding load_from_yaml yaml_policy register_policy
load_from_yaml_no_brackets e yaml_path content timeout t h =
    let p : SecurityPolicy = yaml_policy yaml_path content timeout in
    (
      register_policy e p,
      rw (load_from_yaml, t) refl,
      refl,
      λ nr.
          get_policy-eval_syscall (register_policy e p).0 p.policy_name p nr (registered e p)
          ∙ yaml_policy-denies yaml_path content timeout nr h,
    )

-- What loading a policy file gives. It fails, and leaves the engine as it was, if the file is not there
-- or does not open; it throws if the time limit of the text is a number that `std::stoul` rejects;
-- and it otherwise registers a policy of the text's name with a 32-bit time limit, and leaves the others.
pub load_from_yaml_outcome :
    (there : Bool) (file : Option String) (e : PolicyEngine) (yaml_path : String)
    → ((load_from_yaml there file e yaml_path ≡ some (e, err_policy_violation))
        × ((there ≡ false) ⊎ (file ≡ none)))
      ⊎ ((content : String) × (there ≡ true)
          × (file ≡ some content)
          × (((load_from_yaml there file e yaml_path ≡ none)
                × (yaml_timeout empty_policy.max_execution_time_sec content ≡ none))
              ⊎ ((next : PolicyEngine) × (p : SecurityPolicy) × (load_from_yaml there file e
                      yaml_path
                    ≡ some (next, success))
                  × (p.policy_name ≡ yaml_name yaml_path content)
                  × (p.max_execution_time_sec < 2 ^ 32)
                  × ((name : String)
                      → get_policy next name ≡ (
                          if str_eq (yaml_name yaml_path content) name
                          then some p
                          else get_policy e name)))))
unfolding load_from_yaml yaml_policy register_policy
load_from_yaml_outcome false file e yaml_path = inl (refl, inl refl)
load_from_yaml_outcome true none e yaml_path = inl (refl, inr refl)
load_from_yaml_outcome true (some content) e yaml_path = inr (
  content,
  refl,
  refl,
  elim (Option-cases (yaml_timeout empty_policy.max_execution_time_sec content)) [
    | inl rejected ↦ inl (rw (load_from_yaml, rejected) refl, rejected)
    | inr (timeout, read) ↦
        let p : SecurityPolicy = yaml_policy yaml_path content timeout in
        inr (
          (register_policy e p).0,
          p,
          rw (load_from_yaml, read) refl,
          refl,
          yaml_timeout-lt content timeout read,
          get_policy-register_policy e p,
        )
  ],
)
