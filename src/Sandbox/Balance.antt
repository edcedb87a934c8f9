-- ===== src/Sandbox/Balance.antt =====
-- The descriptors of a sandbox manager through any history of calls, and at its end.
use aegis_sandbox.Prelude.{
  ℕ, ◌+◌, ◌≡◌, ◌⊎◌, refl, ap, subst, String, true, false, Option, none, some, List, [], ◌∷◌, arith,
  Option-cases, inl, inr, lookup, eq_refl, Assoc, Any,
}
use aegis_sandbox.Os.{Os, Machine, Exec}
use aegis_sandbox.Policy.Engine.{PolicyEngine}
use aegis_sandbox.Ebpf.Loader.{EbpfLoader}
use aegis_sandbox.Cgroup.Manager.{CgroupInfo}
use aegis_sandbox.Cgroup.Descriptors.{
  opens, closes, holds, opens_event, closes_event, cgroup_manager-quiet,
}
use aegis_sandbox.Sandbox.Types.{SandboxManager}
use aegis_sandbox.Sandbox.Steps.{execute, run_code, ask_agent, terminate, terminate_every}
use aegis_sandbox.Sandbox.Manager.{
  sandbox_manager, lift, with_lock, set_locked, create_sandbox, execute_code, terminate_sandbox,
  terminate_all, get_metadata,
}
use aegis_sandbox.Sandbox.Validity.{IsValid, all_gone}
use aegis_sandbox.Sandbox.History.{
  Command, Kept, creates, runs_code, terminates, terminates_all, queries, IsCreation, forget, step,
  run, run-IsValid, step-IsValid, sandbox_manager-IsValid,
}
use aegis_sandbox.Sandbox.Shutdown.{terminate_all_outcome}
use aegis_sandbox.Sandbox.Execute.{ask_agent-state}
use aegis_sandbox.Sandbox.Sockets.{ask_agent-Opens}
use aegis_sandbox.Sandbox.Descriptors.{
  taps, IsAccounted, frame-Held, terminate-IsAccounted, terminate_each-Held,
}
use aegis_sandbox.Sandbox.Accounts.{Leaves, create_sandbox-IsAccounted}

pub Leaves-forget :
    {A : Type 0} (P : Machine SandboxManager → Type 0) (o : Option (A × Machine SandboxManager))
    (u : Machine SandboxManager)
    → Leaves P o
    → forget o ≡ some u
    → P u
unfolding forget
Leaves-forget P none u h e = ground (arith, e)
Leaves-forget P (some (a, m)) u h e = subst P (ground (arith, e)) h

pub forget-Leaves :
    {A : Type 0} (P : Machine SandboxManager → Type 0) (o : Option (A × Machine SandboxManager))
    → ((u : Machine SandboxManager) → forget o ≡ some u → P u)
    → Leaves P o
unfolding forget
forget-Leaves P none h = tt
forget-Leaves P (some (a, m)) h = h m refl

with_lock-Leaves :
    {A : Type 0} (P : Machine SandboxManager → Type 0) (f : Exec SandboxManager A)
    (m : Machine SandboxManager)
    → m.state.locked ≡ false
    → P (set_locked false (f (set_locked true m)).1)
    → Leaves P (with_lock (lift f) m)
unfolding with_lock
with_lock-Leaves P f m free h = rw free h

holds-none : (n : ℕ) (c : Assoc CgroupInfo) → ((id : String) → lookup id c ≡ none) → holds n c ≡ 0
unfolding holds lookup
holds-none n [] h = refl
holds-none n ((k, i) ∷ c) h = ground (arith, h k, eq_refl k)

module _ (os : Os) (n : ℕ) where
  execute-IsAccounted :
      (id code : String) (m : Machine SandboxManager)
      → IsAccounted n m
      → IsAccounted n (execute os id code m).1
  unfolding execute run_code
  execute-IsAccounted id code m h = elim (Option-cases (lookup id m.state.sandboxes)) [
    | inl absent ↦ ground (arith, absent, h)
    | inr (i, found) ↦ ground (
      arith,
      found,
      h,
      frame-Held os n (taps n m.state.sandboxes) m (ask_agent os i.guest_vsock_path code m).1
          (ask_agent-state os i.guest_vsock_path code m)
          (ask_agent-Opens os n i.guest_vsock_path code m) h,
      ask_agent-state os i.guest_vsock_path code m,
    )
  ]

  terminate_every-IsAccounted :
      (m : Machine SandboxManager) → IsAccounted n m → IsAccounted n (terminate_every os m).1
  unfolding terminate_every taps
  terminate_every-IsAccounted m h =
      terminate_each-Held os n m.state.sandboxes 0 m (omega (arith, h))

  -- A call that returns on a machine whose mutex is free keeps the account.
  step-IsAccounted :
      (c : Command) (m u : Machine SandboxManager)
      → m.state.locked ≡ false
      → IsAccounted n m
      → step os c m ≡ some u
      → IsAccounted n u
  unfolding step execute_code terminate_sandbox terminate_all get_metadata
  step-IsAccounted (creates config) m u free h e =
      Leaves-forget (IsAccounted n) (create_sandbox os config m) u
        (create_sandbox-IsAccounted os n config m free h) e
  step-IsAccounted (runs_code id code) m u free h e =
      Leaves-forget (IsAccounted n) (execute_code os id code m) u
        (with_lock-Leaves (IsAccounted n) (execute os id code) m free
          (execute-IsAccounted id code (set_locked true m) h))
        e
  step-IsAccounted (terminates id) m u free h e =
      Leaves-forget (IsAccounted n) (terminate_sandbox os id m) u
        (with_lock-Leaves (IsAccounted n) (terminate os id) m free
          (terminate-IsAccounted os n id (set_locked true m) h))
        e
  step-IsAccounted terminates_all m u free h e =
      Leaves-forget (IsAccounted n) (terminate_all os m) u
        (with_lock-Leaves (IsAccounted n) (terminate_every os) m free
          (terminate_every-IsAccounted (set_locked true m) h))
        e
  step-IsAccounted (queries id) m u free h e =
      Leaves-forget (IsAccounted n) (get_metadata id m) u
        (with_lock-Leaves (IsAccounted n) _ m free h) e

-- A valid manager that has its descriptors accounted for.
abbrev pub Sound : Machine SandboxManager → Type 0
Sound m = IsValid m.state × ((n : ℕ) → IsAccounted n m)

module _ (os : Os) where
  pub step-Sound :
      (c : Command) (m u : Machine SandboxManager) → Sound m → step os c m ≡ some u → Sound u
  step-Sound c m u (v, h) e =
      (valid (step-IsValid os c m v), λ n. step-IsAccounted os n c m u v.free (h n) e)
    where
      valid : Kept os c (step os c m) → IsValid u.state
      valid (inl (k, f, w)) =
          let same : k ≡ u = ground (arith, e, f) in
          subst (λ (x : Machine SandboxManager). IsValid x.state) same w
      valid (inr (f, _)) = ground (arith, e, f)

  run-Sound :
      (cs : List Command) (m u : Machine SandboxManager) → Sound m → run os cs m ≡ some u → Sound u
  unfolding run
  run-Sound [] m u s e = subst Sound (ground arith) s
  run-Sound (c ∷ cs) m u s e = elim (Option-cases (step os c m)) [
    | inl stuck ↦ ground (arith, stuck, e)
    | inr (k, f) ↦ run-Sound cs k u (step-Sound c m k s f) (ground (arith, f, e))
  ]

  pub terminate_all-closes :
      (u : Machine SandboxManager)
      → Sound u
      → (v : Machine SandboxManager) × (terminate_all os u ≡ some (tt, v))
        × ((n : ℕ)
            → (opens n v.trace ≡ closes n v.trace) × (holds n v.state.cgroup_manager.cgroups ≡ 0))
  unfolding step taps
  terminate_all-closes u (w, h) =
      let (v, e, none_left, free, cgroups) = terminate_all_outcome os u w.free w.distinct_cgroups in
      (
        v,
        e,
        λ n.
            let b : IsAccounted n v =
              step-IsAccounted os n terminates_all u v w.free (h n) (ap forget e) in
            let no_taps : taps n v.state.sandboxes ≡ 0 = ap (taps n) none_left in
            let no_dirs : holds n v.state.cgroup_manager.cgroups ≡ 0 =
              holds-none n v.state.cgroup_manager.cgroups (all_gone u v w cgroups) in
            (omega (arith, b, no_taps, no_dirs), no_dirs),
      )

  module _ (loader : Option EbpfLoader) (engine : Option PolicyEngine) (base : String) where
    abbrev start : Machine SandboxManager
    start = sandbox_manager os loader engine base []

    pub start-Sound : Sound start
    unfolding sandbox_manager opens closes opens_event closes_event holds taps
    start-Sound = (
      sandbox_manager-IsValid os loader engine base [],
      λ n. ground (arith, cgroup_manager-quiet os n 0 "/sys/fs/cgroup/aegis" []),
    )

    -- From the constructor on, any history of calls returns, or has a creation in it and does not return.
    -- If it returns, every directory, TAP device and socket has been closed as often as it was opened,
    -- but for those that cgroups and sandboxes hold; and the destructor's `terminate_all` returns
    -- then and has closed every one.
    pub history_accounts :
        (cs : List Command)
        → ((u v : Machine SandboxManager) × (run os cs start ≡ some u)
            × (terminate_all os u ≡ some (tt, v))
            × ((n : ℕ)
                → (opens n u.trace
                    ≡ closes n u.trace
                      + (holds n u.state.cgroup_manager.cgroups + taps n u.state.sandboxes))
                  × (opens n v.trace ≡ closes n v.trace)))
          ⊎ ((run os cs start ≡ none) × Any IsCreation cs)
    history_accounts cs = elim (run-IsValid os cs start (start-Sound.0)) [
      | inr stuck ↦ inr stuck
      | inl (u, e, w) ↦
          let s : Sound u = run-Sound cs start u start-Sound e in
          let (v, f, closed) = terminate_all-closes u s in
          inl (u, v, e, f, λ n. (s.1 n, (closed n).0))
    ]
