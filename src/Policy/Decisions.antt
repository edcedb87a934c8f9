-- ===== src/Policy/Decisions.antt =====
-- The decisions of the policy engine: what `eval_syscall` and `eval_network_egress` answer, and how
-- they depend on what was registered.
use aegis_sandbox.Prelude.{
  ℕ, ◌≡◌, ◌≢◌, ◌↔◌, ◌⊎◌, inl, inr, refl, String, true, false, some, List, [], ◌∷◌, arith, contains,
  lookup, lookup-assign, str_eq, if◌then◌else◌, All, Option-cases,
}
use aegis_sandbox.Policy.Engine.{
  PolicyEngine, SecurityPolicy, metadata_ip, register_policy, eval_syscall, none_blocked,
  eval_network_rule, NetworkPolicyRule, eval_network_egress, get_policy,
}

-- What a policy says of a syscall number, independently of the order of the engine's tests: it is
-- not blocked, and it is allowed or the policy allows by default.
abbrev PermitsSyscall : SecurityPolicy → ℕ → Type 0
PermitsSyscall p nr =
    (contains nr p.syscall_rule.blocked_syscalls ≡ false)
    × ((contains nr p.syscall_rule.allowed_syscalls ≡ true) ⊎ (p.syscall_rule.default_allow ≡ true))

-- What a policy says of a destination: egress is open, the destination is none of the blocked
-- addresses, and not the metadata service if that is blocked.
abbrev PermitsEgress : SecurityPolicy → ℕ → Type 0
PermitsEgress p ip =
    (p.network_rule.block_all_egress ≡ false)
    × (p.network_rule.block_cloud_metadata ≡ true → ip ≢ metadata_ip)
    × All (λ blocked. ip ≢ blocked) p.network_rule.blocked_ips_network_order

-- `eval_syscall` permits a syscall exactly when the named policy is registered and permits it: a
-- block overrides an allowance, and an unknown policy denies everything.
eval_syscall_iff :
    (e : PolicyEngine) (name : String) (nr : ℕ)
    → (eval_syscall e name nr ≡ true)
      ↔ ((p : SecurityPolicy) × (get_policy e name ≡ some p) × PermitsSyscall p nr)
unfolding eval_syscall get_policy
eval_syscall_iff e name nr = (forward, λ (p, found, permits). ground (arith, found))
  where
    forward :
        eval_syscall e name nr ≡ true
        → (p : SecurityPolicy) × (get_policy e name ≡ some p) × PermitsSyscall p nr
    forward h = elim (Option-cases (lookup name e.policies)) [
      | inl missing ↦ ground arith
      | inr (p, found) ↦ (p, found, ground arith)
    ]

none_blocked_iff :
    (ip : ℕ) (l : List ℕ) → (none_blocked ip l ≡ true) ↔ All (λ blocked. ip ≢ blocked) l
unfolding none_blocked
none_blocked_iff ip [] = (λ h. tt, λ h. refl)
none_blocked_iff ip (x ∷ xs) = (
  λ h. (ground arith, (none_blocked_iff ip xs).0 (ground arith)),
  λ h. ground (arith, (none_blocked_iff ip xs).1 h.1, h.0),
)

rule_iff :
    (rule : NetworkPolicyRule) (ip : ℕ)
    → (eval_network_rule rule ip ≡ true) ↔ (
        (rule.block_all_egress ≡ false)
        × (rule.block_cloud_metadata ≡ true → ip ≢ metadata_ip)
        × All (λ blocked. ip ≢ blocked) rule.blocked_ips_network_order)
unfolding eval_network_rule
rule_iff rule ip = (
  λ h. (
    ground arith,
    λ b e. ground arith,
    (none_blocked_iff ip rule.blocked_ips_network_order).0 (ground arith),
  ),
  λ h. ground (arith, h.0, h.1, (none_blocked_iff ip rule.blocked_ips_network_order).1 h.2),
)

-- `eval_network_egress` permits a destination exactly when the named policy is registered and
-- permits it.
eval_network_egress_iff :
    (e : PolicyEngine) (name : String) (ip : ℕ)
    → (eval_network_egress e name ip ≡ true)
      ↔ ((p : SecurityPolicy) × (get_policy e name ≡ some p) × PermitsEgress p ip)
unfolding eval_network_egress get_policy
eval_network_egress_iff e name ip = (forward, backward)
  where
    forward :
        eval_network_egress e name ip ≡ true
        → (p : SecurityPolicy) × (get_policy e name ≡ some p) × PermitsEgress p ip
    forward h = elim (Option-cases (lookup name e.policies)) [
      | inl missing ↦ ground arith
      | inr (p, found) ↦ (p, found, (rule_iff p.network_rule ip).0 (ground arith))
    ]

    backward :
        ((p : SecurityPolicy) × (get_policy e name ≡ some p) × PermitsEgress p ip)
        → eval_network_egress e name ip ≡ true
    backward (p, found, permits) = ground (arith, found, (rule_iff p.network_rule ip).1 permits)

-- Registering a policy replaces the one of that name and leaves the others as they were.
pub get_policy-register_policy :
    (e : PolicyEngine) (p : SecurityPolicy) (name : String)
    → get_policy (register_policy e p).0 name
      ≡ (if str_eq p.policy_name name then some p else get_policy e name)
unfolding get_policy register_policy
get_policy-register_policy e p name = lookup-assign p.policy_name name p e.policies
