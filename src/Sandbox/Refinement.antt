-- ===== src/Sandbox/Refinement.antt =====
-- Each method of the sandbox manager does what its specification allows.
use aegis_sandbox.Prelude.{
  ◌≡◌, ◌≢◌, ◌⊎◌, inl, inr, sym, ap, subst, ◌∙◌, String, true, ◌||◌, Option, none, some, [], arith,
  Option-cases, Bool-cases, lookup, lookup-assign, lookup-erase, has_key, has_key-false,
}
use aegis_sandbox.Prelude.Paths.{is_empty}
use aegis_sandbox.Core.{Status, success, err_invalid_sandbox_id, SandboxMetadata}
use aegis_sandbox.Os.{Os, Machine}
use aegis_sandbox.Sandbox.Types.{SandboxConfig, ExecutionResult, SandboxInstance, SandboxManager}
use aegis_sandbox.Sandbox.Manager.{
  with_lock, create_sandbox, terminate_sandbox, terminate_all, execute_code, get_metadata,
}
use aegis_sandbox.Sandbox.Create.{Registered, refused, create_sandbox_outcome}
use aegis_sandbox.Sandbox.Terminate.{terminate_sandbox_outcome}
use aegis_sandbox.Sandbox.Shutdown.{terminate_all_outcome}
use aegis_sandbox.Sandbox.Execute.{execute_code_outcome}
use aegis_sandbox.Sandbox.Validity.{IsValid, Live}
use aegis_sandbox.Sandbox.History.{Command, creates, runs_code, terminates, terminates_all, queries}
use aegis_sandbox.Sandbox.Threads.{
  Answer, answers, created, terminated, executed, swept, shown, call,
}
use aegis_sandbox.Sandbox.Registry.{
  Registry, Spec, adds, rejects, fails, removes, finds_nothing, runs, sweeps, shows, shows_nothing,
}

abbrev config_of : Option SandboxInstance → Option SandboxConfig
config_of none = none
config_of (some i) = some i.config

-- What the specification sees of a manager.
abbrev pub registry_of : SandboxManager → Registry
registry_of s id = config_of (lookup id s.sandboxes)

module _ (os : Os) (m n : Machine SandboxManager) (v : IsValid m.state) where
  abbrev r : Registry
  r = registry_of m.state

  abbrev q : Registry
  q = registry_of n.state

  Registered-adds :
      (config : SandboxConfig)
      → Registered config m.state n.state
      → Spec r q (creates config) (created success)
  Registered-adds config g = adds config g.named (ground (arith, g.fresh)) (λ j. ground (
    arith,
    g.result,
    g.configured,
    lookup-assign config.sandbox_id j g.instance m.state.sandboxes,
  ))

  same_registry : n.state ≡ m.state → (j : String) → q j ≡ r j
  same_registry same j = ap (λ (s : SandboxManager). registry_of s j) same

  refusal-Spec :
      (config : SandboxConfig) (status : Status)
      → (is_empty config.sandbox_id || has_key config.sandbox_id m.state.sandboxes) ≡ true
      → create_sandbox os config m ≡ some (status, n)
      → Spec r q (creates config) (created status)
  unfolding has_key
  refusal-Spec config status bad e =
      let f = refused os config m v.free bad in
      let kept : n ≡ m = ground (arith, e, f) in
      let same : err_invalid_sandbox_id ≡ status = ground (arith, e, f) in
      subst (λ s. Spec r q (creates config) (created s)) same
        (rejects config why (same_registry (ap (λ x. x.state) kept)))
    where
      why : (is_empty config.sandbox_id ≡ true) ⊎ (r config.sandbox_id ≢ none)
      why = elim (Bool-cases (is_empty config.sandbox_id)) [
        | inl none_given ↦ inl none_given
        | inr given ↦ elim (Option-cases (lookup config.sandbox_id m.state.sandboxes)) [
          | inl absent ↦ ground (arith, bad, given, absent)
          | inr (i, found) ↦ inr (λ h. ground (arith, found, h))
        ]
      ]

  creation-Spec :
      (config : SandboxConfig) (status : Status)
      → create_sandbox os config m ≡ some (status, n)
      → Spec r q (creates config) (created status)
  creation-Spec config status e =
      elim (Bool-cases
        (is_empty config.sandbox_id || has_key config.sandbox_id m.state.sandboxes)) [
          | inl bad ↦ refusal-Spec config status bad e
          | inr good ↦ elim (create_sandbox_outcome os config m v.free) [
            | inl (k, f, g) ↦
                let same : k ≡ n = ground (arith, e, f) in
                let done : success ≡ status = ground (arith, e, f) in
                subst (λ s. Spec r q (creates config) (created s)) done
                  (Registered-adds config (
                    subst (λ (x : Machine SandboxManager). Registered config m.state x.state) same
                      g))
            | inr (inl (s, k, f, failed, kept)) ↦
                let same : k ≡ n = ground (arith, e, f) in
                let ended : s ≡ status = ground (arith, e, f) in
                subst (λ t. Spec r q (creates config) (created t)) ended
                  (fails config s (ground (arith, good))
                    (ground (
                      arith,
                      has_key-false config.sandbox_id m.state.sandboxes (ground (arith, good)),
                    ))
                    failed (same_registry (ap (λ x. x.state) (sym same) ∙ kept)))
            | inr (inr stuck) ↦ absurd ground (arith, stuck, e)
          ]
        ]

  termination-Spec :
      (id : String) (status : Status)
      → terminate_sandbox os id m ≡ some (status, n)
      → Spec r q (terminates id) (terminated status)
  termination-Spec id status e = elim (terminate_sandbox_outcome os id m v.free) [
    | inl (unknown, f) ↦
        let kept : n ≡ m = ground (arith, e, f) in
        let ended : err_invalid_sandbox_id ≡ status = ground (arith, e, f) in
        subst (λ t. Spec r q (terminates id) (terminated t)) ended
          (finds_nothing id (ground (arith, unknown)) (same_registry (ap (λ x. x.state) kept)))
    | inr (i, found, k, f, s, _, _, _) ↦
        let same : n ≡ k = ground (arith, e, f) in
        let ended : success ≡ status = ground (arith, e, f) in
        let left =
          ap (λ (x : Machine SandboxManager). x.state.sandboxes) same
          ∙ ap (λ (x : SandboxManager). x.sandboxes) s in
        subst (λ t. Spec r q (terminates id) (terminated t)) ended
          (removes id (λ h. ground (arith, found, h))
            (λ j. ground (arith, left, lookup-erase id j m.state.sandboxes v.distinct)))
  ]

  query-Spec :
      (id : String) (answer : Option SandboxMetadata)
      → get_metadata id m ≡ some (answer, n)
      → Spec r q (queries id) (shown answer)
  unfolding get_metadata with_lock
  query-Spec id answer e = elim (Option-cases (lookup id m.state.sandboxes)) [
    | inl absent ↦
        let kept : n.state ≡ m.state = ground (arith, e, v.free) in
        let ended : none ≡ answer = ground (arith, e, v.free, absent) in
        subst (λ t. Spec r q (queries id) (shown t)) ended
          (shows_nothing id (ground (arith, absent)) (same_registry kept))
    | inr (i, found) ↦
        let kept : n.state ≡ m.state = ground (arith, e, v.free) in
        let ended : some i.metadata ≡ answer = ground (arith, e, v.free, found) in
        let l : Live m.state id i = v.live id i found in
        subst (λ t. Spec r q (queries id) (shown t)) ended
          (shows id i.metadata (λ h. ground (arith, found, h)) l.named l.state (same_registry kept))
  ]

  code-Spec :
      (id code : String) (result : ExecutionResult)
      → execute_code os id code m ≡ some (result, n)
      → Spec r q (runs_code id code) (executed result)
  code-Spec id code result e =
      let (x, k, f, reported) = execute_code_outcome os id code m v.free in
      let same : n ≡ k = ground (arith, e, f) in
      let ended : x ≡ result = ground (arith, e, f) in
      subst (λ t. Spec r q (runs_code id code) (executed t)) ended
        (runs id code x reported.of_sandbox reported.status
          (λ zero_code.
            let (i, found, _, _) = reported.answered zero_code in λ h. ground (arith, found, h))
          (same_registry (ap (λ y. y.state) same ∙ reported.kept)))

  sweep-Spec : (u : Unit {0}) → terminate_all os m ≡ some (u, n) → Spec r q terminates_all swept
  unfolding lookup
  sweep-Spec u e =
      let (k, f, none_left, _, _) = terminate_all_outcome os m v.free v.distinct_cgroups in
      let left : n.state.sandboxes ≡ [] = ground (arith, e, f, none_left) in
      sweeps (λ j. ground (arith, left))

answered :
    {A : Type 0} (f : A → Answer) (o : Option (A × Machine SandboxManager)) (a : Answer)
    (n : Machine SandboxManager)
    → answers f o ≡ some (a, n)
    → (x : A) × (o ≡ some (x, n)) × (f x ≡ a)
answered f none a n e = absurd ground (arith, e)
answered f (some (x, k)) a n e = (x, ground (arith, e), ground (arith, e))

module _ (os : Os) where
  -- A call that returns on a valid manager does what the specification allows.
  pub call-Spec :
      (c : Command) (a : Answer) (m n : Machine SandboxManager)
      → IsValid m.state
      → call os c m ≡ some (a, n)
      → Spec (registry_of m.state) (registry_of n.state) c a
  unfolding call
  call-Spec (creates config) a m n v e =
      let (x, f, same) = answered created (create_sandbox os config m) a n e in
      rw (← same) (creation-Spec os m n v config x f)
  call-Spec (runs_code id code) a m n v e =
      let (x, f, same) = answered executed (execute_code os id code m) a n e in
      rw (← same) (code-Spec os m n v id code x f)
  call-Spec (terminates id) a m n v e =
      let (x, f, same) = answered terminated (terminate_sandbox os id m) a n e in
      rw (← same) (termination-Spec os m n v id x f)
  call-Spec terminates_all a m n v e =
      let (x, f, same) = answered (λ u. swept) (terminate_all os m) a n e in
      rw (← same) (sweep-Spec os m n v x f)
  call-Spec (queries id) a m n v e =
      let (x, f, same) = answered shown (get_metadata id m) a n e in
      rw (← same) (query-Spec os m n v id x f)
