-- ===== src/Sandbox/Mutex.antt =====
-- What the mutex gives to threads that call the manager: one at a time, and in some order one after the other.
use aegis_sandbox.Prelude.{ℕ, ◌≡◌, ◌⊎◌, inl, inr, false, none, some, arith}
use aegis_sandbox.Os.{Os, Machine}
use aegis_sandbox.Sandbox.Types.{SandboxManager}
use aegis_sandbox.Sandbox.Manager.{set_locked}
use aegis_sandbox.Sandbox.Validity.{IsValid}
use aegis_sandbox.Sandbox.History.{Command, IsCreation}
use aegis_sandbox.Sandbox.Threads.{
  call, left_behind, outside, waiting, inside, stuck, holding, System, Step, locks, returns,
  Reaches, Replays,
}
use aegis_sandbox.Sandbox.Calls.{call-IsValid}
use aegis_sandbox.Sandbox.Serving.{held_inside, Stands, Served, holder, reached-Served}

module _ (os : Os) where
  module _ (m : Machine SandboxManager) (v : IsValid m.state) (s : System)
      (r : Reaches os m s) where
    served : Served os m s
    served = reached-Served os m v s r

    -- From a valid manager on, in every order of the steps of any number of threads: no two threads hold the
    -- mutex together, and the calls that have returned, one after the other in the order of their
    -- returns, give each the answer that it has given and lead to a valid manager. That is the manager that is
    -- there, but for the mutex, or a thread is stuck in a creation, and what is there is what this
    -- creation has left behind on that manager.
    pub calls_in_order :
        ((i j : ℕ) (c d : Command)
          → holding (s.place i) ≡ some c
          → holding (s.place j) ≡ some d
          → i ≡ j)
        × (k : Machine SandboxManager) × IsValid k.state
        × Replays os m s.done k
        × ((set_locked false s.machine ≡ k)
            ⊎ ((j : ℕ) × (d : Command) × (s.place j ≡ stuck d)
                × IsCreation d
                × (s.machine ≡ left_behind os d k)))
    calls_in_order = (holder os s served.0, served.1, served.2, served.3, stands served.1 served.4)
      where
        stands :
            (k : Machine SandboxManager)
            → Stands os s k
            → (set_locked false s.machine ≡ k)
              ⊎ ((j : ℕ) × (d : Command) × (s.place j ≡ stuck d)
                  × IsCreation d
                  × (s.machine ≡ left_behind os d k))
        stands k (inl (e, _)) = inl e
        stands k (inr x) = inr x

    -- From a valid manager on: a thread that waits for the mutex can take it, or another thread is inside,
    -- and that one can return, or its call is a creation that never does; or another thread is
    -- stuck in such a creation.
    pub waiting_proceeds :
        (i : ℕ) (c : Command)
        → s.place i ≡ waiting c
        → ((n : System) × Step os s n × (n.place i ≡ inside c))
          ⊎ (((j : ℕ) × (d : Command) × (s.place j ≡ inside d)
                × (((n : System) × Step os s n × (n.place j ≡ outside))
                    ⊎ ((call os d (set_locked false s.machine) ≡ none) × IsCreation d)))
              ⊎ ((j : ℕ) × (d : Command) × (s.place j ≡ stuck d) × IsCreation d))
    unfolding holding
    waiting_proceeds i c w = proceeds served
      where
        proceeds :
            Served os m s
            → ((n : System) × Step os s n × (n.place i ≡ inside c))
              ⊎ (((j : ℕ) × (d : Command) × (s.place j ≡ inside d)
                    × (((n : System) × Step os s n × (n.place j ≡ outside))
                        ⊎ ((call os d (set_locked false s.machine) ≡ none) × IsCreation d)))
                  ⊎ ((j : ℕ) × (d : Command) × (s.place j ≡ stuck d) × IsCreation d))
        proceeds (_, k, _, _, inr (j, d, x, y, _)) = inr (inr (j, d, x, y))
        proceeds (inr (l, _), k, _, _, inl _) = inl (_, locks i c w l, ground arith)
        proceeds (inl (_, (j, d, at, _)), k, valid, _, inl (e, calm)) =
            let there : s.place j ≡ inside d = held_inside (s.place j) d at (calm j) in
            inr (
              inl (
                j,
                d,
                there,
                elim (call-IsValid os d k valid) [
                  | inl (a, n, f, _) ↦
                      inl (_, returns j d a n there (ground (arith, e, f)), ground arith)
                  | inr (f, creation) ↦ inr (ground (arith, e, f), creation)
                ],
              ))
