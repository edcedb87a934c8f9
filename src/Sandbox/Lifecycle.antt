-- ===== src/Sandbox/Lifecycle.antt =====
-- A sandbox from its creation to its termination.
use aegis_sandbox.Prelude.{
  ◌≡◌, inl, inr, refl, ap, subst, ◌∙◌, false, some, List, [], ◌∷◌, arith, lookup, erase-assign,
  lookup-assign_self, All,
}
use aegis_sandbox.Core.{success}
use aegis_sandbox.Os.{Os, Machine}
use aegis_sandbox.Sandbox.Types.{SandboxConfig, SandboxManager}
use aegis_sandbox.Sandbox.Manager.{create_sandbox, terminate_sandbox}
use aegis_sandbox.Sandbox.Create.{Registered, create_sandbox_outcome}
use aegis_sandbox.Sandbox.Terminate.{without, terminate_sandbox_outcome}
use aegis_sandbox.Sandbox.Execute.{execute_code_outcome}
use aegis_sandbox.Sandbox.History.{
  Command, creates, runs_code, terminates, terminates_all, queries, forget, get_metadata-machine,
  step, run,
}

-- A call that runs code or looks something up.
abbrev pub Uses : Command → Type 0
Uses (runs_code id code) = Unit
Uses (queries id) = Unit
Uses _ = ⊥

-- The entries of a new sandbox and of its cgroup are erased again.
without-Registered :
    (os : Os) (config : SandboxConfig) (s : SandboxManager) (n : Machine SandboxManager)
    → Registered config s n.state
    → without os config.sandbox_id n ≡ s
without-Registered os config s n r = rw r.result (
    ground (
      arith,
      erase-assign config.sandbox_id r.instance s.sandboxes r.fresh,
      erase-assign config.sandbox_id r.info s.cgroup_manager.cgroups r.fresh_cgroup,
    ))

module _ (os : Os) where
  step-Uses :
      (c : Command) (m : Machine SandboxManager)
      → m.state.locked ≡ false
      → Uses c
      → (n : Machine SandboxManager) × (step os c m ≡ some n) × (n.state ≡ m.state)
  unfolding step forget
  step-Uses (creates config) m free u = absurd u
  step-Uses (runs_code id code) m free u =
      let (r, n, e, reported) = execute_code_outcome os id code m free in
      (n, ap forget e, reported.kept)
  step-Uses (terminates id) m free u = absurd u
  step-Uses terminates_all m free u = absurd u
  step-Uses (queries id) m free u = (m, get_metadata-machine id m free, refl)

  run-Uses :
      (cs : List Command) (m : Machine SandboxManager)
      → m.state.locked ≡ false
      → All Uses cs
      → (n : Machine SandboxManager) × (run os cs m ≡ some n) × (n.state ≡ m.state)
  unfolding run
  run-Uses [] m free u = (m, refl, refl)
  run-Uses (c ∷ cs) m free u =
      let (k, e, same) = step-Uses c m free u.0 in
      let (n, f, kept) = run-Uses cs k (ground (arith, same, free)) u.1 in
      (n, ground (arith, e, f), kept ∙ same)

  pub creation-Registered :
      (config : SandboxConfig) (m n : Machine SandboxManager)
      → m.state.locked ≡ false
      → create_sandbox os config m ≡ some (success, n)
      → Registered config m.state n.state
  creation-Registered config m n free created = elim (create_sandbox_outcome os config m free) [
    | inl (k, e, r) ↦
        let same : k ≡ n = ground (arith, e, created) in
        subst (λ (x : Machine SandboxManager). Registered config m.state x.state) same r
    | inr (inl (s, k, e, failed, _)) ↦ absurd ground (arith, e, created, failed)
    | inr (inr stuck) ↦ absurd ground (arith, stuck, created)
  ]

  -- After a creation that succeeds on a manager whose mutex is free, and any calls that run code or look
  -- something up, which all return, the termination of the sandbox succeeds and leaves the manager
  -- as it was before the creation.
  pub create_terminate :
      (config : SandboxConfig) (m n : Machine SandboxManager) (cs : List Command)
      → m.state.locked ≡ false
      → create_sandbox os config m ≡ some (success, n)
      → All Uses cs
      → (k l : Machine SandboxManager) × (run os cs n ≡ some k)
        × (terminate_sandbox os config.sandbox_id k ≡ some (success, l))
        × (l.state ≡ m.state)
  create_terminate config m n cs free created uses =
      let r : Registered config m.state n.state = creation-Registered config m n free created in
      let (k, e, same) = run-Uses cs n (ground (arith, r.result, free)) uses in
      let there : lookup config.sandbox_id k.state.sandboxes ≡ some r.instance = ground (
        arith,
        same,
        r.result,
        lookup-assign_self config.sandbox_id r.instance m.state.sandboxes,
      ) in
      elim (terminate_sandbox_outcome os config.sandbox_id k
        (ground (arith, same, r.result, free))) [
          | inl (unknown, _) ↦ absurd ground (arith, unknown, there)
          | inr (i, _, l, f, s, _, _, _) ↦
              let u : Machine SandboxManager = record { state = n.state; trace = k.trace } in
              let back : without os config.sandbox_id k ≡ without os config.sandbox_id u =
                ap
                  (λ (t : SandboxManager).
                    without os config.sandbox_id (record { state = t; trace = k.trace }))
                  same in
              (k, l, e, f, s ∙ back ∙ without-Registered os config m.state u r)
        ]
