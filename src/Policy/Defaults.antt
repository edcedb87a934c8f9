-- ===== src/Policy/Defaults.antt =====
-- What the policies that the engine makes itself permit: the default `strict_python` policy, and the
-- one that `load_from_json` registers.
use aegis_sandbox.Prelude.{
  ℕ, ◌≡◌, ◌≢◌, ◌↔◌, ◌⊎◌, inl, inr, refl, String, true, false, Option, none, some, List, [], ◌∷◌,
  arith, contains, contains-insert, disjoint, contains-disjoint, lookup, assign, lookup-assign_self,
  insert, Any,
}
use aegis_sandbox.Policy.Syscalls.{syscall_name_map, resolve_syscall_name}
use aegis_sandbox.Policy.Engine.{
  PolicyEngine, metadata_ip, policy_engine, load_from_json, eval_syscall, eval_network_egress,
  insert_resolved, strict_python_allowed, strict_python_blocked, strict_python, none_blocked,
  eval_network_rule, insert_found, register_policy, eval_syscall_rule,
}

contains-insert_found :
    (n : ℕ) (o : Option ℕ) (set : List ℕ)
    → (contains n (insert_found o set) ≡ true) ↔ ((o ≡ some n) ⊎ (contains n set ≡ true))
unfolding insert_found
contains-insert_found n none set = (λ h. inr h, λ h. ground arith)
contains-insert_found n (some m) set =
    (λ h. ground (arith, contains-insert n m set), λ h. ground (arith, contains-insert n m set))

-- The set that the loop over a list of names builds: the numbers that were there, and those that
-- some name of the list resolves to.
pub contains-insert_resolved :
    (n : ℕ) (names : List String) (set : List ℕ)
    → (contains n (insert_resolved names set) ≡ true)
      ↔ (Any (λ name. resolve_syscall_name name ≡ some n) names ⊎ (contains n set ≡ true))
unfolding insert_resolved
contains-insert_resolved n [] set = (λ h. inr h, λ h. ground arith)
contains-insert_resolved n (name ∷ names) set = ground (
  arith,
  contains-insert_found n (resolve_syscall_name name) set,
  contains-insert_resolved n names (insert_found (resolve_syscall_name name) set),
)

strict_python_disjoint :
    disjoint (insert_resolved strict_python_blocked []) (insert_resolved strict_python_allowed [])
    ≡ true
unfolding strict_python disjoint resolve_syscall_name syscall_name_map lookup insert
strict_python_disjoint = refl

-- Under a policy that denies by default and whose sets are disjoint, the allowed set decides.
whitelist_iff :
    (allowed blocked : List ℕ) (n : ℕ)
    → disjoint blocked allowed ≡ true
    → (eval_syscall_rule
          (record { allowed_syscalls = allowed; blocked_syscalls = blocked; default_allow = false })
          n
        ≡ true)
      ↔ (contains n allowed ≡ true)
unfolding eval_syscall_rule
whitelist_iff allowed blocked n d =
    (λ h. ground arith, λ h. ground (arith, contains-disjoint n blocked allowed d))

strict_python_registered : lookup "strict_python" policy_engine.policies ≡ some strict_python
unfolding policy_engine register_policy assign lookup
strict_python_registered = refl

strict_python_rule : strict_python.syscall_rule ≡ record {
  allowed_syscalls = insert_resolved strict_python_allowed [];
  blocked_syscalls = insert_resolved strict_python_blocked [];
  default_allow = false;
}
unfolding strict_python
strict_python_rule = refl

-- A fresh engine permits a syscall under "strict_python" exactly when a name of the allowed list
-- resolves to its number: no blocked name takes one of these away, and all else is denied.
policy_engine_syscalls :
    (n : ℕ)
    → (eval_syscall policy_engine "strict_python" n ≡ true)
      ↔ Any (λ name. resolve_syscall_name name ≡ some n) strict_python_allowed
unfolding eval_syscall eval_syscall_rule contains
policy_engine_syscalls n =
    rw (strict_python_registered, eval_syscall)
      (rw strict_python_rule (
        λ h. named ((contains-insert_resolved n strict_python_allowed []).0 (rule.0 h)),
        λ a. rule.1 ((contains-insert_resolved n strict_python_allowed []).1 (inl a)),
      ))
  where
    rule :
        (eval_syscall_rule
            (record {
              allowed_syscalls = insert_resolved strict_python_allowed [];
              blocked_syscalls = insert_resolved strict_python_blocked [];
              default_allow = false;
            })
            n
          ≡ true)
        ↔ (contains n (insert_resolved strict_python_allowed []) ≡ true)
    rule = whitelist_iff _ _ n strict_python_disjoint

    named :
        Any (λ name. resolve_syscall_name name ≡ some n) strict_python_allowed
          ⊎ (contains n [] ≡ true)
        → Any (λ name. resolve_syscall_name name ≡ some n) strict_python_allowed
    named (inl a) = a
    named (inr e) = cc

-- A fresh engine lets "strict_python" connect everywhere but to the metadata service.
policy_engine_egress :
    (ip : ℕ) → (eval_network_egress policy_engine "strict_python" ip ≡ true) ↔ (ip ≢ metadata_ip)
unfolding strict_python eval_network_egress eval_network_rule none_blocked
policy_engine_egress ip =
    (λ h. ground (arith, strict_python_registered), λ h. ground (arith, strict_python_registered))

-- Whatever the text of the JSON policy, the policy "json_imported_policy" denies every syscall and
-- blocks no destination but the metadata service.
load_from_json_denies :
    (e : PolicyEngine) (text : String) (n : ℕ)
    → (eval_syscall (load_from_json e text).0 "json_imported_policy" n ≡ false)
      × ((eval_network_egress (load_from_json e text).0 "json_imported_policy" n ≡ true)
          ↔ (n ≢ metadata_ip))
unfolding load_from_json register_policy eval_syscall eval_syscall_rule contains eval_network_egress
    eval_network_rule none_blocked
load_from_json_denies e text n = (
  rw (lookup-assign_self, eval_syscall) refl,
  rw (lookup-assign_self, eval_network_egress) (λ h. ground arith, λ h. ground arith),
)
