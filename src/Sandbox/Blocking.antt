-- ===== src/Sandbox/Blocking.antt =====
-- What a creation that fails does to every thread.
use aegis_sandbox.Prelude.{
  ℕ, ◌≡◌, ◌≢◌, ◌⊎◌, inl, inr, refl, ◌∙◌, ap, ◌||◌, true, false, none, some, has_key, arith,
}
use aegis_sandbox.Prelude.Paths.{is_empty}
use aegis_sandbox.Core.{success}
use aegis_sandbox.Os.{Os, Machine}
use aegis_sandbox.Sandbox.Types.{SandboxConfig, SandboxManager}
use aegis_sandbox.Sandbox.Boot.{boot, apply_ebpf_policies}
use aegis_sandbox.Sandbox.Steps.{prepare}
use aegis_sandbox.Sandbox.Manager.{set_locked}
use aegis_sandbox.Sandbox.Create.{create_sandbox_blocks}
use aegis_sandbox.Sandbox.Validity.{IsValid}
use aegis_sandbox.Sandbox.History.{Command, creates}
use aegis_sandbox.Sandbox.Threads.{
  answers, call, created, left_behind, inside, stuck, holding, System, Step, enters, locks, passes,
  blocks, returns, Reaches, Leads, next, stays, onward,
}
use aegis_sandbox.Sandbox.Ownership.{Owned}
use aegis_sandbox.Sandbox.Calls.{call-locked, left_behind-kept}
use aegis_sandbox.Sandbox.Serving.{holder, reached-Served}

module _ (os : Os) (i : ℕ) (c : Command) (s : System)
    (silent : call os c (set_locked false s.machine) ≡ none)
    (held : s.machine.state.locked ≡ true) where
  -- The thread is inside with a call that never returns, or stuck behind it.
  abbrev Blocked : System → Type 0
  Blocked n =
      (((n.place i ≡ inside c) × (n.machine ≡ s.machine))
        ⊎ ((n.place i ≡ stuck c) × (n.machine ≡ left_behind os c (set_locked false s.machine))))
      × (n.done ≡ s.done)

  Blocked-held : (n : System) → Blocked n → n.machine.state.locked ≡ true
  Blocked-held n (inl (_, e), _) = ap (λ x. x.state.locked) e ∙ held
  Blocked-held n (inr (_, e), _) =
      ap (λ x. x.state.locked) e ∙ (left_behind-kept os c (set_locked false s.machine)).1

  Blocked-holding : (n : System) → Blocked n → holding (n.place i) ≡ some c
  unfolding holding
  Blocked-holding n (inl (at, _), _) = ground (arith, at)
  Blocked-holding n (inr (at, _), _) = ground (arith, at)

  Step-Blocked : (k n : System) → Step os k n → Owned k → Blocked k → Blocked n
  unfolding holding
  Step-Blocked k n (enters j d at) o (inl (p, e), h) = (inl (ground (arith, p, at), e), h)
  Step-Blocked k n (enters j d at) o (inr (p, e), h) = (inr (ground (arith, p, at), e), h)
  Step-Blocked k n (locks j d at l) o b = absurd ground (arith, l, Blocked-held k b)
  Step-Blocked k n (passes j d a u at l e) o b =
      absurd ground (arith, e, call-locked os d k.machine l)
  Step-Blocked k n (blocks j d at e) o (inr (p, f), h) =
      let same : j ≡ i = holder os k o j i d c (ground (arith, at)) (ground (arith, p)) in
      absurd ground (arith, same, at, p)
  Step-Blocked k n (blocks j d at e) o (inl (p, f), h) =
      let same : j ≡ i = holder os k o j i d c (ground (arith, at)) (ground (arith, p)) in
      let calls : d ≡ c = ground (arith, same, at, p) in
      let left : left_behind os d (set_locked false k.machine)
          ≡ left_behind os c (set_locked false s.machine) =
        ap (λ x. left_behind os x (set_locked false k.machine)) calls
        ∙ ap (λ x. left_behind os c (set_locked false x)) f in
      (inr (ground (arith, same, calls), left), h)
  Step-Blocked k n (returns j d a u at e) o (inr (p, f), h) =
      let same : j ≡ i = holder os k o j i d c (ground (arith, at)) (ground (arith, p)) in
      absurd ground (arith, same, at, p)
  Step-Blocked k n (returns j d a u at e) o (inl (p, f), h) =
      let same : j ≡ i = holder os k o j i d c (ground (arith, at)) (ground (arith, p)) in
      let calls : d ≡ c = ground (arith, same, at, p) in
      absurd ground (arith, silent, e, calls, ap (λ x. call os d (set_locked false x)) f)

Leads-Reaches :
    (os : Os) (m : Machine SandboxManager) (s n : System)
    → Reaches os m s
    → Leads os s n
    → Reaches os m n
Leads-Reaches os m s n r stays = r
Leads-Reaches os m s n r (onward {t = k} l d) = next (Leads-Reaches os m s k r l) d

-- From a valid manager on, with any number of threads: once a thread is inside with the creation of a new
-- sandbox whose preparation succeeds, and whose microVM does not boot or whose policies cannot be
-- applied, that thread holds the mutex for ever and no call of any thread returns any more. The
-- manager stays as it is, or as this creation leaves it when it gets stuck.
pub failed_creation_blocks :
    (os : Os) (m : Machine SandboxManager)
    → IsValid m.state
    → (s : System) → Reaches os m s
    → (i : ℕ) (config : SandboxConfig) → s.place i ≡ inside (creates config)
    → (is_empty config.sandbox_id || has_key config.sandbox_id s.machine.state.sandboxes) ≡ false
    → let p = prepare os config (set_locked true s.machine) in
      let b = boot os p.0.1 p.1 in
      p.0.0 ≡ success
      → ((b.0 ≢ success) ⊎ ((apply_ebpf_policies os p.0.1 b.1).0 ≢ success))
      → (n : System) → Leads os s n
      → (holding (n.place i) ≡ some (creates config))
        × (n.done ≡ s.done)
        × ((n.machine ≡ s.machine)
            ⊎ (n.machine ≡ left_behind os (creates config) (set_locked false s.machine)))
unfolding call holding
failed_creation_blocks os m v s r i config at fresh prepared fails n l = shown (blocked n l)
  where
    silent : call os (creates config) (set_locked false s.machine) ≡ none
    silent =
        ap (answers created)
          (create_sandbox_blocks os config (set_locked false s.machine) refl fresh prepared fails)

    held : s.machine.state.locked ≡ true
    held = elim (reached-Served os m v s r).0 [
      | inl (h, _) ↦ h
      | inr (_, nobody) ↦ absurd ground (arith, nobody i, at)
    ]

    blocked : (k : System) → Leads os s k → Blocked os i (creates config) s silent held k
    blocked k stays = (inl (at, refl), refl)
    blocked k (onward {t = j} w d) =
        Step-Blocked os i (creates config) s silent held j k d
          (reached-Served os m v j (Leads-Reaches os m s j r w)).0 (blocked j w)

    shown :
        Blocked os i (creates config) s silent held n
        → (holding (n.place i) ≡ some (creates config))
          × (n.done ≡ s.done)
          × ((n.machine ≡ s.machine)
              ⊎ (n.machine ≡ left_behind os (creates config) (set_locked false s.machine)))
    shown (inl (p, e), h) = (ground (arith, p), h, inl e)
    shown (inr (p, e), h) = (ground (arith, p), h, inr e)
