-- ===== src/Sandbox/Ownership.antt =====
-- Which thread holds the manager's mutex.
use aegis_sandbox.Prelude.{
  ℕ, ◌≡◌, ◌⊎◌, inl, inr, refl, sym, ◌∙◌, true, false, none, some, List, ◌==◌, arith, Bool-cases,
  Option-cases,
}
use aegis_sandbox.Os.{Machine}
use aegis_sandbox.Sandbox.Types.{SandboxManager}
use aegis_sandbox.Sandbox.Manager.{set_locked}
use aegis_sandbox.Sandbox.History.{Command}
use aegis_sandbox.Sandbox.Threads.{Answer, Place, outside, inside, holding, System, moved}

-- The mutex is held by exactly one thread, or it is free and no thread holds it.
abbrev pub Owned : System → Type 0
Owned s =
    ((s.machine.state.locked ≡ true)
      × ((i : ℕ) × (c : Command) × (holding (s.place i) ≡ some c)
          × ((j : ℕ) (d : Command) → holding (s.place j) ≡ some d → j ≡ i)))
    ⊎ ((s.machine.state.locked ≡ false) × ((j : ℕ) → holding (s.place j) ≡ none))

-- A thread moves, and holds the mutex afterwards if it did before.
pub moved-Owned :
    (s : System) (i : ℕ) (p : Place) (n : Machine SandboxManager)
    → holding p ≡ holding (s.place i)
    → n.state.locked ≡ s.machine.state.locked
    → Owned s
    → Owned (record s { machine = n; place = moved s.place i p })
moved-Owned s i p n e l o = owned o
  where
    same : (j : ℕ) → holding (moved s.place i p j) ≡ holding (s.place j)
    same j = elim (Bool-cases (i == j)) [
      | inl here ↦ ground (arith, here, e)
      | inr other ↦ ground (arith, other)
    ]

    owned : Owned s → Owned (record s { machine = n; place = moved s.place i p })
    owned (inl (held, (k, d, at, only))) =
        inl (l ∙ held, (k, d, same k ∙ at, λ j c h. only j c (sym (same j) ∙ h)))
    owned (inr (free, nobody)) = inr (l ∙ free, λ j. same j ∙ nobody j)

pub locks-Owned :
    (s : System) (i : ℕ) (c : Command)
    → s.machine.state.locked ≡ false
    → Owned s
    → Owned (record s { machine = set_locked true s.machine; place = moved s.place i (inside c) })
unfolding holding
locks-Owned s i c l (inl (held, _)) = absurd ground (arith, l, held)
locks-Owned s i c l (inr (_, nobody)) = inl (
  refl,
  (
    i,
    c,
    ground arith,
    λ j e h. elim (Bool-cases (i == j)) [
      | inl same ↦ ground (arith, same)
      | inr other ↦ absurd ground (arith, h, other, nobody j)
    ],
  ),
)

pub returns-Owned :
    (s : System) (i : ℕ) (c : Command) (n : Machine SandboxManager)
    (h : List (ℕ × Command × Answer))
    → holding (s.place i) ≡ some c
    → n.state.locked ≡ false
    → Owned s
    → Owned (record { machine = n; place = moved s.place i outside; done = h })
unfolding holding
returns-Owned s i c n h at free (inr (_, nobody)) = absurd ground (arith, at, nobody i)
returns-Owned s i c n h at free (inl (l, (k, d, there, only))) = inr (
  free,
  λ j. elim (Bool-cases (i == j)) [
    | inl same ↦ ground (arith, same)
    | inr other ↦ elim (Option-cases (holding (s.place j))) [
      | inl none_held ↦ ground (arith, other, none_held)
      | inr (e, held) ↦ absurd ground (arith, other, only j e held, only i c at)
    ]
  ],
)
