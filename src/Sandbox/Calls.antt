-- ===== src/Sandbox/Calls.antt =====
-- What one call of a thread does to a valid manager, and what it leaves behind if it does not return.
use aegis_sandbox.Prelude.{
  ◌≡◌, ◌⊎◌, inl, inr, refl, ap, subst, true, Option, none, some, arith, Option-cases,
}
use aegis_sandbox.Os.{Os, Machine}
use aegis_sandbox.Sandbox.Types.{SandboxConfig, SandboxManager}
use aegis_sandbox.Sandbox.Manager.{
  with_lock, set_locked, create_sandbox, execute_code, terminate_sandbox, terminate_all,
  get_metadata,
}
use aegis_sandbox.Sandbox.Validity.{IsValid}
use aegis_sandbox.Sandbox.History.{
  Command, creates, runs_code, terminates, terminates_all, queries, IsCreation, forget, step,
  step-IsValid,
}
use aegis_sandbox.Sandbox.Threads.{Answer, answers, call, left_behind}
use aegis_sandbox.Sandbox.Boot.{boot}
use aegis_sandbox.Sandbox.Steps.{prepare}
use aegis_sandbox.Sandbox.Frames.{boot-state, apply_ebpf_policies-state}
use aegis_sandbox.Sandbox.Prepare.{prepare_outcome}

forget-answers :
    {A : Type 0} (f : A → Answer) (o : Option (A × Machine SandboxManager))
    → forget (answers f o) ≡ forget o
unfolding forget
forget-answers f none = refl
forget-answers f (some (a, m)) = refl

module _ (os : Os) where
  forget-call : (c : Command) (m : Machine SandboxManager) → forget (call os c m) ≡ step os c m
  unfolding call step
  forget-call (creates config) m = forget-answers Answer.created (create_sandbox os config m)
  forget-call (runs_code id code) m = forget-answers Answer.executed (execute_code os id code m)
  forget-call (terminates id) m = forget-answers Answer.terminated (terminate_sandbox os id m)
  forget-call terminates_all m = forget-answers (λ u. Answer.swept) (terminate_all os m)
  forget-call (queries id) m = forget-answers Answer.shown (get_metadata id m)

  -- On a valid manager a call returns and keeps it valid, or it is a creation that does not return.
  pub call-IsValid :
      (c : Command) (m : Machine SandboxManager)
      → IsValid m.state
      → ((a : Answer) × (n : Machine SandboxManager) × (call os c m ≡ some (a, n))
          × IsValid n.state)
        ⊎ ((call os c m ≡ none) × IsCreation c)
  unfolding forget
  call-IsValid c m v = elim (Option-cases (call os c m)) [
    | inl silent ↦ elim (step-IsValid os c m v) [
      | inl (n, e, w) ↦ absurd ground (arith, silent, forget-call c m, e)
      | inr (_, creation) ↦ inr (silent, creation)
    ]
    | inr ((a, n), e) ↦ elim (step-IsValid os c m v) [
      | inl (k, f, w) ↦
          let same : k ≡ n = ground (arith, e, forget-call c m, f) in
          inl (a, n, e, subst (λ x. IsValid x.state) same w)
      | inr (f, _) ↦ absurd ground (arith, e, forget-call c m, f)
    ]
  ]

  -- A call on a machine whose mutex is held waits.
  pub call-locked :
      (c : Command) (m : Machine SandboxManager) → m.state.locked ≡ true → call os c m ≡ none
  unfolding call create_sandbox execute_code terminate_sandbox terminate_all get_metadata with_lock
  call-locked (creates config) m held = ground (arith, held)
  call-locked (runs_code id code) m held = ground (arith, held)
  call-locked (terminates id) m held = ground (arith, held)
  call-locked terminates_all m held = ground (arith, held)
  call-locked (queries id) m held = ground (arith, held)

  prepare-kept :
      (config : SandboxConfig) (m : Machine SandboxManager)
      → ((prepare os config m).1.state.sandboxes ≡ m.state.sandboxes)
        × ((prepare os config m).1.state.locked ≡ m.state.locked)
  prepare-kept config m = elim (prepare_outcome os config m) [
    | inl (_, _, (info, _, e)) ↦
        (ap (λ (x : SandboxManager). x.sandboxes) e, ap (λ (x : SandboxManager). x.locked) e)
    | inr (_, e) ↦
        (ap (λ (x : SandboxManager). x.sandboxes) e, ap (λ (x : SandboxManager). x.locked) e)
  ]

  -- A call that waits for ever has registered no sandbox, and holds the mutex.
  pub left_behind-kept :
      (c : Command) (m : Machine SandboxManager)
      → ((left_behind os c m).state.sandboxes ≡ m.state.sandboxes)
        × ((left_behind os c m).state.locked ≡ true)
  unfolding left_behind
  left_behind-kept (creates config) m =
      let l : Machine SandboxManager = set_locked true m in
      let p = prepare os config l in
      let b = boot os p.0.1 p.1 in
      (
        ground (
          arith,
          prepare-kept config l,
          boot-state os p.0.1 p.1,
          apply_ebpf_policies-state os p.0.1 b.1,
        ),
        ground (
          arith,
          prepare-kept config l,
          boot-state os p.0.1 p.1,
          apply_ebpf_policies-state os p.0.1 b.1,
        ),
      )
  left_behind-kept (runs_code id code) m = (refl, refl)
  left_behind-kept (terminates id) m = (refl, refl)
  left_behind-kept terminates_all m = (refl, refl)
  left_behind-kept (queries id) m = (refl, refl)
