-- ===== src/Guest/Stamps.antt =====
-- Which handlers have read the clock, and when.
use aegis_sandbox.Prelude.{
  ℕ, ◌<◌, ◌^◌, ◌≡◌, refl, subst, String, Option, none, some, arith, ◌==◌, inl, inr, Bool-cases,
}
use aegis_sandbox.Guest.Agent.{ExecutionRequest}
use aegis_sandbox.Guest.Handlers.{
  Stage, idle, finished, reading, timed, written, answering, Agent, update, Step, accepts, refuses,
  reads_clock, writes, fails_to_write, runs, removes, Reaches, starting, next,
}

-- The stamp of a handler at a stage.
abbrev pub Fits : Stage → Option ℕ → Type 0
Fits idle stamp = stamp ≡ none
Fits finished stamp = Unit
Fits (reading req) stamp = stamp ≡ none
Fits (timed req time) stamp = (stamp ≡ some time) × (time < 2 ^ 63)
Fits (written req time) stamp = (stamp ≡ some time) × (time < 2 ^ 63)
Fits (answering req time) stamp = (stamp ≡ some time) × (time < 2 ^ 63)

abbrev pub Stamped : Agent → Type 0
Stamped a = (j : ℕ) → Fits (a.stage j) (a.stamp j)

module _ (a : Agent) (i : ℕ) (s : Stamped a) where
  -- What the stage of the handler `i` says of its stamp.
  pub here : (now : Stage) → a.stage i ≡ now → Fits now (a.stamp i)
  here now at = subst (λ x. Fits x (a.stamp i)) at (s i)

  -- A handler goes on to a stage that fits its stamp.
  moves-Stamped :
      (to : Stage) → Fits to (a.stamp i) → (j : ℕ) → Fits (update a.stage i to j) (a.stamp j)
  moves-Stamped to fits j = elim (Bool-cases (i == j)) [
    | inl same ↦
        let e : i ≡ j = ground (arith, same) in rw same (subst (λ k. Fits to (a.stamp k)) e fits)
    | inr other ↦ rw other (s j)
  ]

  clock-Stamped :
      (req : ExecutionRequest) (time : ℕ)
      → time < 2 ^ 63
      → (j : ℕ) → Fits (update a.stage i (timed req time) j) (update a.stamp i (some time) j)
  clock-Stamped req time small j = elim (Bool-cases (i == j)) [
    | inl same ↦ rw same (refl, small)
    | inr other ↦ rw other (s j)
  ]

Step-Stamped : (a b : Agent) → Step a b → Stamped a → Stamped b
Step-Stamped a b (accepts i req at) s = moves-Stamped a i s (reading req) (here a i s idle at)
Step-Stamped a b (refuses i at) s = moves-Stamped a i s finished tt
Step-Stamped a b (reads_clock i req time at small) s = clock-Stamped a i s req time small
Step-Stamped a b (writes i req time at) s =
    moves-Stamped a i s (written req time) (here a i s (timed req time) at)
Step-Stamped a b (fails_to_write i req time rest at) s = moves-Stamped a i s finished tt
Step-Stamped a b (runs i req time left at alone) s =
    moves-Stamped a i s (answering req time) (here a i s (written req time) at)
Step-Stamped a b (removes i req time at) s = moves-Stamped a i s finished tt

pub reached-Stamped : (files : String → Option String) (a : Agent) → Reaches files a → Stamped a
reached-Stamped files a starting = λ j. refl
reached-Stamped files a (next {a = t} r d) = Step-Stamped t a d (reached-Stamped files t r)

-- No two handlers have read the same time.
abbrev pub IsDistinct : Agent → Type 0
IsDistinct a = (i j time : ℕ) → a.stamp i ≡ some time → a.stamp j ≡ some time → i ≡ j

-- A stamp stays.
Step-stays :
    (a b : Agent) (j time : ℕ)
    → Step a b
    → Stamped a
    → a.stamp j ≡ some time
    → b.stamp j ≡ some time
Step-stays a b j time (accepts i req at) s e = e
Step-stays a b j time (refuses i at) s e = e
Step-stays a b j time (reads_clock i req new at small) s e =
    let none_yet : a.stamp i ≡ none = here a i s (reading req) at in ground (arith, none_yet, e)
Step-stays a b j time (writes i req t at) s e = e
Step-stays a b j time (fails_to_write i req t rest at) s e = e
Step-stays a b j time (runs i req t left at alone) s e = e
Step-stays a b j time (removes i req t at) s e = e

pub Step-IsDistinct : (a b : Agent) → Step a b → Stamped a → IsDistinct b → IsDistinct a
Step-IsDistinct a b d s distinct i j time x y =
    distinct i j time (Step-stays a b i time d s x) (Step-stays a b j time d s y)
