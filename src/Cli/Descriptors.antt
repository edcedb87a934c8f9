-- ===== src/Cli/Descriptors.antt =====
-- The descriptors of one run of the command line: none outlives its manager.
use aegis_sandbox.Prelude.{
  ℕ, ◌+◌, ◌≡◌, ◌⊎◌, refl, String, true, Option, none, some, List, [], ◌∷◌, arith, Option-cases, inl,
  inr, Bool-cases, str_eq, eq_iff, ◌||◌,
}
use aegis_sandbox.Os.{Os, Trace, Machine}
use aegis_sandbox.Policy.Engine.{policy_engine}
use aegis_sandbox.Cgroup.Manager.{is_success, destroy_all}
use aegis_sandbox.Cgroup.Descriptors.{
  opens, closes, opens_event, closes_event, holds, destroy_each_quiet,
}
use aegis_sandbox.Ebpf.Loader.{EbpfLoader, ebpf_loader, destroy_links, close_object, detach_all}
use aegis_sandbox.Sandbox.Types.{SandboxManager, on_cgroups, on_loader}
use aegis_sandbox.Sandbox.Manager.{create_sandbox, execute_code, terminate_sandbox, get_metadata}
use aegis_sandbox.Sandbox.History.{
  Command, creates, runs_code, terminates, queries, IsCreation, forget, step, step-IsValid,
}
use aegis_sandbox.Sandbox.Sockets.{Opens}
use aegis_sandbox.Sandbox.Descriptors.{cgroups_of}
use aegis_sandbox.Sandbox.Balance.{Sound, step-Sound, start-Sound, terminate_all-closes}
use aegis_sandbox.Cli.Options.{Options, default_options, parse_options}
use aegis_sandbox.Cli.Main.{
  Report, version_shown, usage, unknown_command, terminated, created, create_failed, executed,
  terminate_failed, shown, config_of, run_create, run_exec, run_terminate, run_status,
  release_loader, close_manager, run_command, session, main,
}

module _ (os : Os) (n : ℕ) where
  destroy_links-Opens :
      (l : List ℕ) (m : Machine EbpfLoader) → Opens n 0 m.trace (destroy_links os l m).1.trace
  unfolding destroy_links opens closes opens_event closes_event
  destroy_links-Opens [] m = omega arith
  destroy_links-Opens (x ∷ l) m = grind (arith, destroy_links-Opens l)

  detach_all-Opens : (m : Machine EbpfLoader) → Opens n 0 m.trace (detach_all os m).1.trace
  unfolding detach_all close_object opens closes opens_event closes_event
  detach_all-Opens m = ground (arith, destroy_links-Opens m.state.bpf_links m)

  destroy_all-Opens :
      (m : Machine SandboxManager)
      → let u = (on_cgroups (destroy_all os) m).1 in
        (opens n u.trace ≡ opens n m.trace)
        × (closes n u.trace ≡ closes n m.trace + holds n m.state.cgroup_manager.cgroups)
  unfolding destroy_all
  destroy_all-Opens m = destroy_each_quiet os n 0 m.state.cgroup_manager.cgroups (cgroups_of m)

-- After the destructors nothing is open.
module _ (os : Os) where
  abbrev Closed : Machine SandboxManager → Type 0
  Closed u = (n : ℕ) → opens n u.trace ≡ closes n u.trace

  release_loader-Closed :
      (m : Machine SandboxManager)
      → Closed m
      → (u : Machine SandboxManager) × (release_loader os m ≡ some (tt, u)) × Closed u
  release_loader-Closed m h = elim (Option-cases m.state.ebpf_loader) [
    | inl absent ↦ (m, ground (arith, absent), h)
    | inr (l, found) ↦ (
      (on_loader l (detach_all os) m).1,
      ground (arith, found),
      λ n. omega (arith, h n, detach_all-Opens os n (record { state = l; trace = m.trace })),
    )
  ]

  close_manager-Closed :
      (m : Machine SandboxManager)
      → Sound m
      → (u : Machine SandboxManager) × (close_manager os m ≡ some (tt, u)) × Closed u
  unfolding close_manager
  close_manager-Closed m s =
      let (v, e, closed) = terminate_all-closes os m s in
      let w : Machine SandboxManager = (on_cgroups (destroy_all os) v).1 in
      let (u, f, done) =
        release_loader-Closed w (λ n. omega (arith, closed n, destroy_all-Opens os n v)) in
      (u, ground (arith, e, f), done)

  -- A method that is a step of a history.
  method-Sound :
      {A : Type 0} (c : Command) (m : Machine SandboxManager)
      (o : Option (A × Machine SandboxManager))
      → Sound m
      → forget o ≡ step os c m
      → ((a : A) × (k : Machine SandboxManager) × (o ≡ some (a, k)) × Sound k)
        ⊎ ((o ≡ none) × IsCreation c)
  unfolding forget
  method-Sound c m none s e = elim (step-IsValid os c m (s.0)) [
    | inl (k, f, _) ↦ ground (arith, e, f)
    | inr (f, creation) ↦ inr (refl, creation)
  ]
  method-Sound c m (some (a, k)) s e = inl (a, k, refl, step-Sound os c m k s (ground (arith, e)))

  -- A command returns on a sound manager and leaves it sound.
  abbrev Finishes : Option ((ℕ × Report) × Machine SandboxManager) → Type 0
  Finishes o = (r : ℕ × Report) × (u : Machine SandboxManager) × (o ≡ some (r, u)) × Sound u

  run_create-Finishes :
      (o : Options) (m : Machine SandboxManager)
      → Sound m
      → Finishes (run_create os o m) ⊎ (run_create os o m ≡ none)
  unfolding run_create step IsCreation
  run_create-Finishes o m s =
      elim (method-Sound (creates (config_of o)) m (create_sandbox os (config_of o) m) s refl) [
        | inr (stuck, _) ↦ inr (ground (arith, stuck))
        | inl (status, k, e, t) ↦ elim (Bool-cases (is_success status)) [
          | inr failed ↦ inl ((1, create_failed status), k, ground (arith, e, failed), t)
          | inl ok ↦
              elim (method-Sound (queries o.sandbox_id) k (get_metadata o.sandbox_id k) t refl) [
                | inl (meta, u, f, w) ↦ inl ((0, created meta), u, ground (arith, e, ok, f), w)
                | inr (_, no_creation) ↦ absurd no_creation
              ]
        ]
      ]

  run_exec-Finishes :
      (o : Options) (m : Machine SandboxManager) → Sound m → Finishes (run_exec os o m)
  unfolding run_exec step IsCreation
  run_exec-Finishes o m s =
      elim (method-Sound (runs_code o.sandbox_id o.code_payload) m
        (execute_code os o.sandbox_id o.code_payload m) s refl) [
          | inl (result, u, e, t) ↦ ((0, executed result), u, ground (arith, e), t)
          | inr (_, no_creation) ↦ absurd no_creation
        ]

  run_terminate-Finishes :
      (o : Options) (m : Machine SandboxManager) → Sound m → Finishes (run_terminate os o m)
  unfolding run_terminate step IsCreation
  run_terminate-Finishes o m s =
      elim (method-Sound (terminates o.sandbox_id) m (terminate_sandbox os o.sandbox_id m) s refl) [
        | inl (status, u, e, t) ↦ elim (Bool-cases (is_success status)) [
          | inr failed ↦ ((1, terminate_failed status), u, ground (arith, e, failed), t)
          | inl ok ↦ ((0, terminated), u, ground (arith, e, ok), t)
        ]
        | inr (_, no_creation) ↦ absurd no_creation
      ]

  run_status-Finishes :
      (o : Options) (m : Machine SandboxManager) → Sound m → Finishes (run_status os o m)
  unfolding run_status step IsCreation
  run_status-Finishes o m s =
      elim (method-Sound (queries o.sandbox_id) m (get_metadata o.sandbox_id m) s refl) [
        | inl (meta, u, e, t) ↦ ((0, shown meta), u, ground (arith, e), t)
        | inr (_, no_creation) ↦ absurd no_creation
      ]

  run_command-Finishes :
      (command : String) (o : Options) (m : Machine SandboxManager)
      → Sound m
      → Finishes (run_command os command o m)
        ⊎ ((run_command os command o m ≡ none) × (str_eq command "create" ≡ true))
  unfolding run_command
  run_command-Finishes command o m s = elim (Bool-cases (str_eq command "create")) [
    | inl same ↦ elim (run_create-Finishes o m s) [
      | inl (r, u, e, t) ↦ inl (r, u, ground (arith, same, e), t)
      | inr stuck ↦ inr (ground (arith, same, stuck), same)
    ]
    | inr no_create ↦ elim (Bool-cases (str_eq command "exec")) [
      | inl same ↦
          let (r, u, e, t) = run_exec-Finishes o m s in
          inl (r, u, ground (arith, no_create, same, e), t)
      | inr no_exec ↦ elim (Bool-cases (str_eq command "terminate")) [
        | inl same ↦
            let (r, u, e, t) = run_terminate-Finishes o m s in
            inl (r, u, ground (arith, no_create, no_exec, same, e), t)
        | inr no_terminate ↦ elim (Bool-cases (str_eq command "status")) [
          | inl same ↦
              let (r, u, e, t) = run_status-Finishes o m s in
              inl (r, u, ground (arith, no_create, no_exec, no_terminate, same, e), t)
          | inr no_status ↦ inl (
            (1, unknown_command),
            m,
            ground (arith, no_create, no_exec, no_terminate, no_status),
            s,
          )
        ]
      ]
    ]
  ]

  session-Closed :
      (command : String) (o : Options) (m : Machine SandboxManager)
      → Sound m
      → ((r : ℕ × Report) × (u : Machine SandboxManager) × (session os command o m ≡ some (r, u))
          × Closed u)
        ⊎ ((session os command o m ≡ none) × (str_eq command "create" ≡ true))
  unfolding session
  session-Closed command o m s = elim (run_command-Finishes command o m s) [
    | inl (r, u, e, t) ↦
        let (v, f, done) = close_manager-Closed u t in inl (r, v, ground (arith, e, f), done)
    | inr (stuck, same) ↦ inr (ground (arith, stuck), same)
  ]

  -- A run of the program from its start: it ends, and every directory, TAP device and socket that it has
  -- opened is closed as often as it was opened; or it is a `create` and never ends.
  pub main-closes :
      (args : List String)
      → ((r : ℕ × Report) × (t : Trace) × (main os args [] ≡ some (r, t))
          × ((n : ℕ) → opens n t ≡ closes n t))
        ⊎ ((main os args [] ≡ none) × ((rest : List String) × (args ≡ "create" ∷ rest)))
  unfolding main opens closes
  main-closes [] = inl ((1, usage), [], refl, λ n. refl)
  main-closes (command ∷ args) =
      elim (Bool-cases
        (str_eq command "version" || str_eq command "--version" || str_eq command "-v")) [
          | inl version ↦ inl ((0, version_shown), [], ground (arith, version), λ n. refl)
          | inr other ↦
              elim (session-Closed command (parse_options args default_options) _
                (start-Sound os (some ebpf_loader) (some policy_engine) "/var/run/aegis")) [
                  | inl (r, u, e, done) ↦ inl (r, u.trace, ground (arith, other, e), done)
                  | inr (stuck, same) ↦ inr (
                    ground (arith, other, stuck),
                    (args, ground (arith, same, eq_iff command "create")),
                  )
                ]
        ]
