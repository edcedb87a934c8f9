-- ===== src/Sandbox/Isolation.antt =====
-- What the calls for one sandbox leave of the others.
use aegis_sandbox.Prelude.{
  ◌≡◌, ◌≢◌, ◌⊎◌, inl, inr, refl, ◌∙◌, String, none, some, List, [], ◌∷◌, arith, lookup,
  lookup-assign_ne, lookup-erase, eq_iff, Any, All,
}
use aegis_sandbox.Os.{Os, Machine}
use aegis_sandbox.Sandbox.Types.{SandboxConfig, SandboxManager}
use aegis_sandbox.Sandbox.Create.{Registered, create_sandbox_outcome}
use aegis_sandbox.Sandbox.Terminate.{without, terminate_sandbox_outcome}
use aegis_sandbox.Sandbox.Execute.{execute_code_outcome}
use aegis_sandbox.Sandbox.Validity.{IsValid}
use aegis_sandbox.Sandbox.History.{
  Command, creates, runs_code, terminates, terminates_all, queries, IsCreation, forget,
  get_metadata-machine, step, run, step-IsValid,
}

-- A call that is not for the sandbox `b`, or reads only.
abbrev pub Spares : String → Command → Type 0
Spares b (creates config) = config.sandbox_id ≢ b
Spares b (runs_code id code) = Unit
Spares b (terminates id) = id ≢ b
Spares b terminates_all = ⊥
Spares b (queries id) = Unit

-- The entries of `b` are in `t` as in `s`, there or not there.
abbrev pub Same : String → SandboxManager → SandboxManager → Type 0
Same b s t =
    (lookup b t.sandboxes ≡ lookup b s.sandboxes)
    × (lookup b t.cgroup_manager.cgroups ≡ lookup b s.cgroup_manager.cgroups)

Registered-Same :
    (b : String) (config : SandboxConfig) (s t : SandboxManager)
    → config.sandbox_id ≢ b
    → Registered config s t
    → Same b s t
Registered-Same b config s t other r = rw r.result (
  lookup-assign_ne config.sandbox_id b r.instance s.sandboxes other,
  lookup-assign_ne config.sandbox_id b r.info s.cgroup_manager.cgroups other,
)

without-Same :
    (os : Os) (b id : String) (m : Machine SandboxManager)
    → id ≢ b
    → IsValid m.state
    → Same b m.state (without os id m)
without-Same os b id m other v = (
  ground (arith, other, lookup-erase id b m.state.sandboxes v.distinct, eq_iff id b),
  ground (
    arith,
    other,
    lookup-erase id b m.state.cgroup_manager.cgroups v.distinct_cgroups,
    eq_iff id b,
  ),
)

module _ (os : Os) (b : String) where
  -- Of a call that returns.
  step-Same :
      (c : Command) (m n : Machine SandboxManager)
      → IsValid m.state
      → Spares b c
      → step os c m ≡ some n
      → Same b m.state n.state
  unfolding step forget
  step-Same (creates config) m n v other e = elim (create_sandbox_outcome os config m v.free) [
    | inl (k, f, r) ↦
        let same : k ≡ n = ground (arith, e, f) in
        rw (← same) (Registered-Same b config m.state k.state other r)
    | inr (inl (s, k, f, _, kept)) ↦
        let same : k ≡ n = ground (arith, e, f) in rw (← same, kept) (refl, refl)
    | inr (inr stuck) ↦ ground (arith, e, stuck)
  ]
  step-Same (runs_code id code) m n v other e =
      let (r, k, f, reported) = execute_code_outcome os id code m v.free in
      let same : k ≡ n = ground (arith, e, f) in rw (← same, reported.kept) (refl, refl)
  step-Same (terminates id) m n v other e = elim (terminate_sandbox_outcome os id m v.free) [
    | inl (_, f) ↦ let same : m ≡ n = ground (arith, e, f) in rw (← same) (refl, refl)
    | inr (i, _, k, f, s, _, _, _) ↦
        let same : k ≡ n = ground (arith, e, f) in rw (← same, s) (without-Same os b id m other v)
  ]
  step-Same terminates_all m n v other e = absurd other
  step-Same (queries id) m n v other e =
      let same : m ≡ n = ground (arith, e, get_metadata-machine id m v.free) in
      rw (← same) (refl, refl)

  -- On a valid manager a history of calls that spare `b` returns and leaves the entries of `b`, among the
  -- sandboxes and among the cgroups, as they were, there or not there; or it has a creation in it and
  -- does not return.
  pub others_untouched :
      (cs : List Command) (m : Machine SandboxManager)
      → IsValid m.state
      → All (Spares b) cs
      → ((n : Machine SandboxManager) × (run os cs m ≡ some n) × Same b m.state n.state)
        ⊎ ((run os cs m ≡ none) × Any IsCreation cs)
  unfolding run
  others_untouched [] m v spared = inl (m, refl, (refl, refl))
  others_untouched (c ∷ cs) m v spared = elim (step-IsValid os c m v) [
    | inr (e, creation) ↦ inr (ground (arith, e), inl creation)
    | inl (n, e, w) ↦
        let one = step-Same c m n v spared.0 e in
        elim (others_untouched cs n w spared.1) [
          | inl (k, f, rest) ↦ inl (k, ground (arith, e, f), (rest.0 ∙ one.0, rest.1 ∙ one.1))
          | inr (f, creation) ↦ inr (ground (arith, e, f), inr creation)
        ]
  ]
