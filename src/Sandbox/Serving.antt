-- ===== src/Sandbox/Serving.antt =====
-- What the manager is while threads call it.
use aegis_sandbox.Prelude.{
  ℕ, ◌≡◌, ◌≢◌, ◌⊎◌, ◌==◌, Bool-cases, inl, inr, refl, sym, ap, subst, ◌∙◌, true, false, none, some,
  ◌∷◌, arith,
}
use aegis_sandbox.Os.{Os, Machine}
use aegis_sandbox.Sandbox.Types.{SandboxManager}
use aegis_sandbox.Sandbox.Manager.{set_locked}
use aegis_sandbox.Sandbox.Validity.{IsValid}
use aegis_sandbox.Sandbox.History.{Command, IsCreation}
use aegis_sandbox.Sandbox.Threads.{
  call, left_behind, Place, outside, waiting, inside, stuck, holding, moved, System, Step, enters,
  locks, passes, blocks, returns, Reaches, starting, next, Replays, no_calls, one_more,
}
use aegis_sandbox.Sandbox.Ownership.{Owned, moved-Owned, locks-Owned, returns-Owned}
use aegis_sandbox.Sandbox.Calls.{call-IsValid, call-locked, left_behind-kept}

set_locked-free : (m : Machine SandboxManager) → m.state.locked ≡ false → set_locked false m ≡ m
set_locked-free m free = ap (λ b. record m { state = record (m.state) { locked = b } }) (sym free)

pub held_inside :
    (p : Place) (d : Command) → holding p ≡ some d → ((e : Command) → p ≢ stuck e) → p ≡ inside d
unfolding holding
held_inside outside d h calm = ground (arith, h)
held_inside (waiting c) d h calm = ground (arith, h)
held_inside (inside c) d h calm = ground (arith, h)
held_inside (stuck c) d h calm = absurd (calm c refl)

module _ (os : Os) where
  -- The manager is the valid one that the calls that have returned have made, but for the mutex; or a
  -- thread is stuck, and it is what its creation has left behind on that one.
  abbrev pub Stands : System → Machine SandboxManager → Type 0
  Stands s k =
      ((set_locked false s.machine ≡ k) × ((j : ℕ) (d : Command) → s.place j ≢ stuck d))
      ⊎ ((j : ℕ) × (d : Command) × (s.place j ≡ stuck d)
          × IsCreation d
          × (s.machine ≡ left_behind os d k))

  abbrev pub Served : Machine SandboxManager → System → Type 0
  Served m s =
      Owned s × (k : Machine SandboxManager) × IsValid k.state × Replays os m s.done k × Stands s k

  moved_stuck :
      (place : ℕ → Place) (i : ℕ) (p : Place)
      → ((d : Command) → p ≢ stuck d)
      → ((j : ℕ) (d : Command) → place j ≢ stuck d)
      → (j : ℕ) (d : Command) → moved place i p j ≢ stuck d
  moved_stuck place i p h none_stuck j d e = elim (Bool-cases (i == j)) [
    | inl same ↦ h d (ground (arith, same, e))
    | inr other ↦ none_stuck j d (ground (arith, other, e))
  ]

  -- A thread that does not hold the mutex moves and leaves the stuck one where it is.
  stays_stuck :
      (place : ℕ → Place) (i j : ℕ) (p q : Place) (d : Command)
      → place i ≡ q
      → holding q ≡ none
      → place j ≡ stuck d
      → moved place i p j ≡ stuck d
  unfolding holding
  stays_stuck place i j p q d at free e = elim (Bool-cases (i == j)) [
    | inl same ↦ absurd ground (arith, same, at, free, e)
    | inr other ↦ ground (arith, other, e)
  ]

  -- The thread that holds the mutex is the only one.
  pub holder :
      (s : System)
      → Owned s
      → (i j : ℕ) (c d : Command) → holding (s.place i) ≡ some c
      → holding (s.place j) ≡ some d
      → i ≡ j
  holder s (inl (_, (k, e, at, only))) i j c d x y = only i c x ∙ sym (only j d y)
  holder s (inr (_, nobody)) i j c d x y = absurd ground (arith, nobody i, x)

  pub inside_unstuck :
      (s : System)
      → Owned s
      → (i j : ℕ) (c d : Command) → s.place i ≡ inside c
      → s.place j ≢ stuck d
  unfolding holding
  inside_unstuck s o i j c d x y =
      let same : i ≡ j = holder s o i j c d (ground (arith, x)) (ground (arith, y)) in
      absurd ground (arith, x, y, same)

  Step-Served : (m : Machine SandboxManager) (s n : System) → Step os s n → Served m s → Served m n
  unfolding holding
  Step-Served m s n (enters i c at) (o, k, v, r, inl (e, calm)) = (
    moved-Owned s i (waiting c) s.machine (ground (arith, at)) refl o,
    k,
    v,
    r,
    inl (e, moved_stuck s.place i (waiting c) (λ d x. ground (arith, x)) calm),
  )
  Step-Served m s n (enters i c at) (o, k, v, r, inr (j, d, x, y, e)) = (
    moved-Owned s i (waiting c) s.machine (ground (arith, at)) refl o,
    k,
    v,
    r,
    inr (j, d, stays_stuck s.place i j (waiting c) outside d at refl x, y, e),
  )
  Step-Served m s n (locks i c at l) (o, k, v, r, inl (e, calm)) = (
    locks-Owned s i c l o,
    k,
    v,
    r,
    inl (e, moved_stuck s.place i (inside c) (λ d x. ground (arith, x)) calm),
  )
  Step-Served m s n (locks i c at l) (o, k, v, r, inr (j, d, x, y, e)) =
      absurd ground (arith, l, ap (λ z. z.state.locked) e, (left_behind-kept os d k).1)
  Step-Served m s n (passes i c a u at held e) z =
      absurd ground (arith, e, call-locked os c s.machine held)
  Step-Served m s n (blocks i c at e) (o, k, v, r, inr (j, d, x, _, _)) =
      absurd (inside_unstuck s o i j c d at x)
  Step-Served m s n (blocks i c at e) (o, k, v, r, inl (f, calm)) =
      let stuck_call : call os c k ≡ none = ground (arith, e, f) in
      let creation : IsCreation c = elim (call-IsValid os c k v) [
        | inl (a, u, returned, _) ↦ absurd ground (arith, stuck_call, returned)
        | inr (_, yes_creation) ↦ yes_creation
      ] in
      let held : s.machine.state.locked ≡ true = elim o [
        | inl (h, _) ↦ h
        | inr (_, nobody) ↦ absurd ground (arith, nobody i, at)
      ] in
      let left : left_behind os c (set_locked false s.machine) ≡ left_behind os c k =
        ap (left_behind os c) f in
      (
        moved-Owned s i (stuck c) (left_behind os c (set_locked false s.machine))
            (ground (arith, at)) ((left_behind-kept os c (set_locked false s.machine)).1 ∙ sym held)
            o,
        k,
        v,
        r,
        inr (i, c, ground arith, creation, left),
      )
  Step-Served m s n (returns i c a u at e) (o, k, v, r, inr (j, d, x, _, _)) =
      absurd (inside_unstuck s o i j c d at x)
  Step-Served m s n (returns i c a u at e) (o, k, v, r, inl (f, calm)) =
      elim (call-IsValid os c k v) [
        | inl (b, l, g, w) ↦
            let same : l ≡ u = ground (arith, e, f, g) in
            let w' : IsValid u.state = subst (λ x. IsValid x.state) same w in
            (
              returns-Owned s i c u ((i, c, a) ∷ s.done) (ground (arith, at)) w'.free o,
              u,
              w',
              one_more r (ground (arith, e, f)),
              inl (
                set_locked-free u w'.free,
                moved_stuck s.place i outside (λ d x. ground (arith, x)) calm,
              ),
            )
        | inr (g, _) ↦ absurd ground (arith, e, f, g)
      ]

  pub reached-Served :
      (m : Machine SandboxManager) → IsValid m.state → (s : System) → Reaches os m s → Served m s
  unfolding holding
  reached-Served m v s starting = (
    inr (v.free, λ j. refl),
    m,
    v,
    no_calls,
    inl (set_locked-free m v.free, λ j d e. ground (arith, e)),
  )
  reached-Served m v s (next {s = t} r d) = Step-Served m t s d (reached-Served m v t r)
