-- ===== src/Tests/Threads.antt =====
-- Threads that call the sandbox manager, in one order of their steps.
use aegis_sandbox.Prelude.{ℕ, ◌≡◌, ◌⊎◌, inl, refl, ap, false, none, some, lookup}
use aegis_sandbox.Sandbox.Manager.{set_locked, with_lock, get_metadata}
use aegis_sandbox.Sandbox.Validity.{IsValid, emptied-IsValid}
use aegis_sandbox.Sandbox.History.{Command, creates, queries, terminates_all, IsCreation}
use aegis_sandbox.Sandbox.Threads.{
  answers, created, shown, call, left_behind, holding, outside, inside, stuck, System, enters,
  locks, blocks, returns, Step, Reaches, starting, next, Leads, stays, onward, Replays,
}
use aegis_sandbox.Os.{Machine}
use aegis_sandbox.Sandbox.Types.{SandboxManager}
use aegis_sandbox.Sandbox.Create.{create_sandbox_blocks}
use aegis_sandbox.Sandbox.Mutex.{calls_in_order, waiting_proceeds}
use aegis_sandbox.Sandbox.Blocking.{failed_creation_blocks}
use aegis_sandbox.Tests.Machines.{deaf_os}
use aegis_sandbox.Tests.Sandboxes.{config, empty, named, deaf_prepared, deaf_down}

pub empty_IsValid : IsValid empty.state
unfolding lookup
empty_IsValid = emptied-IsValid empty.state refl refl (λ id. refl)

nothing_shown : call deaf_os (queries "agent-1") empty ≡ some (shown none, empty)
unfolding call get_metadata with_lock lookup
nothing_shown = refl

-- Thread 1 has asked for a sandbox that is not there, and thread 0 waits to create it.
abbrev asking : (s : System) × Reaches deaf_os empty s
asking = (
  _,
  next
      (next
        (next (next starting (enters 1 (queries "agent-1") refl)) (enters 0 (creates config) refl))
        (locks 1 (queries "agent-1") refl refl))
      (returns 1 (queries "agent-1") (shown none) empty refl nothing_shown),
)

-- Thread 0 is inside.
abbrev creating : (s : System) × Reaches deaf_os empty s
creating = (_, next asking.1 (locks 0 (creates config) refl refl))

calls_in_order_example :
    ((i j : ℕ) (c d : Command)
      → holding (creating.0.place i) ≡ some c
      → holding (creating.0.place j) ≡ some d
      → i ≡ j)
    × (k : Machine SandboxManager) × IsValid k.state
    × Replays deaf_os empty creating.0.done k
    × ((set_locked false creating.0.machine ≡ k)
        ⊎ ((j : ℕ) × (d : Command) × (creating.0.place j ≡ stuck d)
            × IsCreation d
            × (creating.0.machine ≡ left_behind deaf_os d k)))
calls_in_order_example = calls_in_order deaf_os empty empty_IsValid creating.0 creating.1

waiting_proceeds_example :
    ((n : System) × Step deaf_os asking.0 n × (n.place 0 ≡ inside (creates config)))
    ⊎ (((j : ℕ) × (d : Command) × (asking.0.place j ≡ inside d)
          × (((n : System) × Step deaf_os asking.0 n × (n.place j ≡ outside))
              ⊎ ((call deaf_os d (set_locked false asking.0.machine) ≡ none) × IsCreation d)))
        ⊎ ((j : ℕ) × (d : Command) × (asking.0.place j ≡ stuck d) × IsCreation d))
waiting_proceeds_example =
    waiting_proceeds deaf_os empty empty_IsValid asking.0 asking.1 0 (creates config) refl

-- The creation gets stuck, and then thread 1 wants to wipe everything.
creation_silent : call deaf_os (creates config) (set_locked false creating.0.machine) ≡ none
unfolding call
creation_silent = ap (answers created) (
    create_sandbox_blocks deaf_os config (set_locked false creating.0.machine) refl named
      deaf_prepared (inl deaf_down))

abbrev wiping : (n : System) × Leads deaf_os creating.0 n
wiping = (
  _,
  onward (onward stays (blocks 0 (creates config) refl creation_silent))
      (enters 1 terminates_all refl),
)

failed_creation_blocks_example :
    (holding (wiping.0.place 0) ≡ some (creates config))
    × (wiping.0.done ≡ creating.0.done)
    × ((wiping.0.machine ≡ creating.0.machine)
        ⊎ (wiping.0.machine
            ≡ left_behind deaf_os (creates config) (set_locked false creating.0.machine)))
failed_creation_blocks_example =
    failed_creation_blocks deaf_os empty empty_IsValid creating.0 creating.1 0 config refl named
      deaf_prepared (inl deaf_down) wiping.0 wiping.1
