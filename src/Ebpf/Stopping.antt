-- ===== src/Ebpf/Stopping.antt =====
-- That `stop_polling` returns, whatever the polling thread is doing.
use aegis_sandbox.Prelude.{◌≡◌, refl, ap, ◌⊎◌, inl, inr, Bool, false, [], ◌∙◌, arith}
use aegis_sandbox.Prelude.Int.{pos}
use aegis_sandbox.Ebpf.Polling.{
  Phase, absent, checking, polling, finished, stopping, System, after_stop, owner_joins,
  thread_checks, thread_polls, Step, inits, polls, starts, stops, joins, frees, checks, delivers,
  Reaches,
}
use aegis_sandbox.Ebpf.Interleavings.{flags, Agrees, poll-flags, reached_Agrees}

-- A system comes to a state of a kind, whichever steps are taken: it is of that kind, or some step can be
-- taken and after every step that can be taken it comes to one.
pub data Inevitably (P : System → Type 0) : System → Type 0 where
  now : {s : System} → P s → Inevitably P s
  later :
      {s : System}
      → (n : System) × Step s n
      → ((n : System) → Step s n → Inevitably P n)
      → Inevitably P s

-- `stop_polling` has returned, to the caller or to the destructor, and the thread is gone.
abbrev pub Stopped : Bool → System → Type 0
Stopped d s = (s.control ≡ after_stop d) × (s.thread ≡ absent)

-- While the owner waits, the only steps are the join of a finished thread and the thread's own.
waiting_moves :
    (d : Bool) (s n : System)
    → s.control ≡ stopping d
    → Step s n
    → ((s.thread ≡ finished) × (n.control ≡ after_stop d) × (n.thread ≡ absent))
      ⊎ (((s.thread ≡ checking) × (n ≡ thread_checks s))
          ⊎ ((s.thread ≡ polling)
              × (n.thread ≡ checking)
              × (n.control ≡ s.control)
              × (flags n.reader ≡ flags s.reader)))
unfolding owner_joins thread_polls
waiting_moves d s n c (inits fd callback manager i) = absurd ground (arith, c, i)
waiting_moves d s n c (polls samples err i) = absurd ground (arith, c, i)
waiting_moves d s n c (starts i) = absurd ground (arith, c, i)
waiting_moves d s n c (stops e i) = absurd ground (arith, c, i)
waiting_moves d s n c (joins e i f) = inl (f, ground (arith, c, i), refl)
waiting_moves d s n c (frees i) = absurd ground (arith, c, i)
waiting_moves d s n c (checks t) = inr (inl (t, refl))
waiting_moves d s n c (delivers samples err t) =
    inr (inr (t, refl, refl, poll-flags samples err s.reader))

Phase-cases : (t : Phase) → (t ≡ absent) ⊎ ((t ≡ finished) ⊎ ((t ≡ checking) ⊎ (t ≡ polling)))
Phase-cases absent = inl refl
Phase-cases finished = inr (inl refl)
Phase-cases checking = inr (inr (inl refl))
Phase-cases polling = inr (inr (inr refl))

module _ (d : Bool) where
  from_finished :
      (s : System) → s.control ≡ stopping d → s.thread ≡ finished → Inevitably (Stopped d) s
  from_finished s c t =
      later (owner_joins d s, joins d c t)
        λ n step. elim (waiting_moves d s n c step) [
          | inl (_, back, gone_now) ↦ now (back, gone_now)
          | inr (inl (other, _)) ↦ absurd ground (arith, t, other)
          | inr (inr (other, _, _, _)) ↦ absurd ground (arith, t, other)
        ]

  from_checking :
      (s : System)
      → s.control ≡ stopping d
      → s.thread ≡ checking
      → s.reader.is_polling ≡ false
      → Inevitably (Stopped d) s
  unfolding thread_checks
  from_checking s c t p =
      later (thread_checks s, checks t)
        λ n step. elim (waiting_moves d s n c step) [
          | inl (other, _, _) ↦ absurd ground (arith, t, other)
          | inr (inl (_, e)) ↦
              from_finished n (ap (λ m. m.control) e ∙ c) (ap (λ m. m.thread) e ∙ ground (arith, p))
          | inr (inr (other, _, _, _)) ↦ absurd ground (arith, t, other)
        ]

  from_polling :
      (s : System)
      → s.control ≡ stopping d
      → s.thread ≡ polling
      → s.reader.is_polling ≡ false
      → Inevitably (Stopped d) s
  from_polling s c t p =
      later (thread_polls [] (pos 0) s, delivers [] (pos 0) t)
        λ n step. elim (waiting_moves d s n c step) [
          | inl (other, _, _) ↦ absurd ground (arith, t, other)
          | inr (inl (other, _)) ↦ absurd ground (arith, t, other)
          | inr (inr (_, there, same, kept)) ↦
              from_checking n (same ∙ c) there (ap (λ f. f.0) kept ∙ p)
        ]

  -- The thread cannot be absent, and the flag is down.
  waiting_flag : (s : System) → s.control ≡ stopping d → Agrees s → s.reader.is_polling ≡ false
  waiting_flag s c a = ground (arith, c, a)

-- From every state that the two threads can come to in which `stop_polling` waits, on its own or in
-- the destructor: whatever the thread is doing, and whichever steps are taken, `stop_polling` returns.
pub stop_polling_returns :
    (d : Bool) (s : System) → Reaches s → s.control ≡ stopping d → Inevitably (Stopped d) s
stop_polling_returns d s r c =
    let a : Agrees s = reached_Agrees s r in
    let p = waiting_flag d s c a in
    elim (Phase-cases s.thread) [
      | inl none ↦ absurd ground (arith, c, a, none)
      | inr (inl done) ↦ from_finished d s c done
      | inr (inr (inl about)) ↦ from_checking d s c about p
      | inr (inr (inr within)) ↦ from_polling d s c within p
    ]
