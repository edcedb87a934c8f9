-- ===== src/Sandbox/History.antt =====
-- Any history of calls of the manager's public methods, and what all of them keep.
use aegis_sandbox.Prelude.{
  ◌≡◌, ◌⊎◌, inl, inr, refl, ap, String, Option, none, some, List, [], ◌∷◌, arith, lookup, false,
  Any,
}
use aegis_sandbox.Os.{Os, Trace, Machine}
use aegis_sandbox.Policy.Engine.{PolicyEngine}
use aegis_sandbox.Ebpf.Loader.{EbpfLoader}
use aegis_sandbox.Cgroup.History.{cgroup_manager-state}
use aegis_sandbox.Sandbox.Types.{SandboxConfig, SandboxManager}
use aegis_sandbox.Sandbox.Manager.{
  sandbox_manager, create_sandbox, terminate_sandbox, terminate_all, execute_code, get_metadata,
  with_lock,
}
use aegis_sandbox.Sandbox.Create.{create_sandbox_outcome}
use aegis_sandbox.Sandbox.Terminate.{terminate_sandbox_outcome}
use aegis_sandbox.Sandbox.Shutdown.{terminate_all_outcome}
use aegis_sandbox.Sandbox.Execute.{execute_code_outcome}
use aegis_sandbox.Sandbox.Validity.{
  IsValid, Registered-IsValid, emptied-IsValid, all_gone, without-IsValid,
}

pub data Command : Type 0 where
  creates : SandboxConfig → Command
  runs_code : String → String → Command
  terminates : String → Command
  terminates_all : Command
  queries : String → Command

unfoldable pub IsCreation : Command → Type 0
IsCreation (creates config) = Unit
IsCreation _ = ⊥

unfoldable pub forget :
    {A : Type 0} → Option (A × Machine SandboxManager) → Option (Machine SandboxManager)
forget none = none
forget (some (a, m)) = some m

-- A method that only looks something up leaves a machine whose mutex is free as it was.
pub get_metadata-machine :
    (id : String) (m : Machine SandboxManager)
    → m.state.locked ≡ false
    → forget (get_metadata id m) ≡ some m
unfolding get_metadata with_lock forget
get_metadata-machine id m free = ground arith

module _ (os : Os) where
  unfoldable pub step : Command → Machine SandboxManager → Option (Machine SandboxManager)
  unfolding forget
  step (creates config) m = forget (create_sandbox os config m)
  step (runs_code id code) m = forget (execute_code os id code m)
  step (terminates id) m = forget (terminate_sandbox os id m)
  step terminates_all m = forget (terminate_all os m)
  step (queries id) m = forget (get_metadata id m)

  -- `none` once a call does not return.
  unfoldable pub run : List Command → Machine SandboxManager → Option (Machine SandboxManager)
  unfolding step
  run [] m = some m
  run (c ∷ cs) m = elim (step c m) [ none ↦ none | some n ↦ run cs n ]

  -- A call returns and keeps the manager valid, or it is a creation that does not return.
  abbrev pub Kept : Command → Option (Machine SandboxManager) → Type 0
  Kept c o =
      ((n : Machine SandboxManager) × (o ≡ some n) × IsValid n.state) ⊎ ((o ≡ none) × IsCreation c)

  pub step-IsValid :
      (c : Command) (m : Machine SandboxManager) → IsValid m.state → Kept c (step c m)
  unfolding step forget IsCreation
  step-IsValid (creates config) m v = elim (create_sandbox_outcome os config m v.free) [
    | inl (n, e, r) ↦ inl (n, ap forget e, Registered-IsValid config m.state n.state v r)
    | inr (inl (s, n, e, failed, same)) ↦ inl (n, ap forget e, rw same v)
    | inr (inr e) ↦ inr (ap forget e, tt)
  ]
  step-IsValid (runs_code id code) m v =
      let (r, n, e, reported) = execute_code_outcome os id code m v.free in
      inl (n, ap forget e, rw reported.kept v)
  step-IsValid (terminates id) m v = elim (terminate_sandbox_outcome os id m v.free) [
    | inl (unknown, e) ↦ inl (m, ap forget e, v)
    | inr (i, found, n, e, s, _, _, _) ↦ inl (n, ap forget e, rw s (without-IsValid os id m v))
  ]
  step-IsValid terminates_all m v =
      let (n, e, none_left, free, cgroups) = terminate_all_outcome os m v.free v.distinct_cgroups in
      inl (n, ap forget e, emptied-IsValid n.state free none_left (all_gone m n v cgroups))
  step-IsValid (queries id) m v = inl (m, get_metadata-machine id m v.free, v)

  -- From a valid manager on, any history of calls returns and leaves the manager valid, or has a
  -- creation in it and does not return.
  pub run-IsValid :
      (cs : List Command) (m : Machine SandboxManager)
      → IsValid m.state
      → ((n : Machine SandboxManager) × (run cs m ≡ some n) × IsValid n.state)
        ⊎ ((run cs m ≡ none) × Any IsCreation cs)
  unfolding run
  run-IsValid [] m v = inl (m, refl, v)
  run-IsValid (c ∷ cs) m v = elim (step-IsValid c m v) [
    | inl (n, e, w) ↦ elim (run-IsValid cs n w) [
      | inl (k, f, x) ↦ inl (k, ground (arith, e, f), x)
      | inr (f, a) ↦ inr (ground (arith, e, f), inr a)
    ]
    | inr (e, a) ↦ inr (ground (arith, e), inl a)
  ]

  pub sandbox_manager-IsValid :
      (loader : Option EbpfLoader) (engine : Option PolicyEngine) (base : String) (t : Trace)
      → IsValid (sandbox_manager os loader engine base t).state
  unfolding sandbox_manager lookup
  sandbox_manager-IsValid loader engine base t =
      emptied-IsValid (sandbox_manager os loader engine base t).state refl refl
        (λ id. ground (arith, cgroup_manager-state os "/sys/fs/cgroup/aegis" t))

  -- From the constructor on, any history of calls returns and leaves a manager whose mutex is free, with
  -- one entry for each id, every sandbox active and running with a cgroup of its limits, and no
  -- cgroup without a sandbox; or it has a creation in it and does not return.
  pub run-sandbox_manager-IsValid :
      (loader : Option EbpfLoader) (engine : Option PolicyEngine) (base : String) (t : Trace)
      (cs : List Command)
      → ((n : Machine SandboxManager) × (run cs (sandbox_manager os loader engine base t) ≡ some n)
          × IsValid n.state)
        ⊎ ((run cs (sandbox_manager os loader engine base t) ≡ none) × Any IsCreation cs)
  run-sandbox_manager-IsValid loader engine base t cs =
      run-IsValid cs (sandbox_manager os loader engine base t)
        (sandbox_manager-IsValid loader engine base t)
