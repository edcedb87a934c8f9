-- ===== src/Sandbox/Linearization.antt =====
-- Threads that call the sandbox manager see its specification: a registry that the calls change one after
-- the other.
use aegis_sandbox.Prelude.{
  ℕ, ◌≡◌, ◌⊎◌, inl, inr, sym, ap, ◌∙◌, subst, String, Option, none, some, List, arith, lookup,
}
use aegis_sandbox.Os.{Os, Trace, Machine}
use aegis_sandbox.Policy.Engine.{PolicyEngine}
use aegis_sandbox.Ebpf.Loader.{EbpfLoader}
use aegis_sandbox.Sandbox.Types.{SandboxManager}
use aegis_sandbox.Sandbox.Manager.{sandbox_manager}
use aegis_sandbox.Sandbox.Validity.{IsValid}
use aegis_sandbox.Sandbox.History.{Command, IsCreation, sandbox_manager-IsValid}
use aegis_sandbox.Sandbox.Threads.{Answer, System, Reaches, Replays, no_calls, call}
use aegis_sandbox.Sandbox.Mutex.{calls_in_order}
use aegis_sandbox.Sandbox.Calls.{call-IsValid, left_behind-kept}
use aegis_sandbox.Sandbox.Registry.{Explains, nothing, one_more}
use aegis_sandbox.Sandbox.Refinement.{registry_of, call-Spec}

registry_same : (a b : SandboxManager) → a.sandboxes ≡ b.sandboxes → registry_of a ≡ registry_of b
registry_same a b e = ap (λ x. registry_of (record a { sandboxes = x })) e

module _ (os : Os) where
  Replays-Explains :
      (m k : Machine SandboxManager) (h : List (ℕ × Command × Answer))
      → IsValid m.state
      → Replays os m h k
      → IsValid k.state × Explains (registry_of m.state) h (registry_of k.state)
  Replays-Explains m k h v no_calls = (v, nothing)
  Replays-Explains m k h v (Replays.one_more {k = j} {i = i} {c = c} {a = a} rest e) =
      let (w, explained) = Replays-Explains m j _ v rest in
      (valid (call-IsValid os c j w), one_more explained (call-Spec os c a j k w e))
    where
      valid :
          ((b : Answer) × (l : Machine SandboxManager) × (call os c j ≡ some (b, l))
              × IsValid l.state)
            ⊎ ((call os c j ≡ none) × IsCreation c)
          → IsValid k.state
      valid (inl (b, l, f, x)) =
          let same : l ≡ k = ground (arith, e, f) in
          subst (λ (y : Machine SandboxManager). IsValid y.state) same x
      valid (inr (stuck, _)) = absurd ground (arith, stuck, e)

  -- From the constructor on, in every order of the steps of any number of threads: the answers of the calls
  -- that have returned, in the order of their returns, are those of a registry of configurations
  -- that starts empty, as its specification allows, and the registry that they lead to is that
  -- of the manager.
  pub threads_refine :
      (loader : Option EbpfLoader) (engine : Option PolicyEngine) (base : String) (t : Trace)
      (s : System)
      → Reaches os (sandbox_manager os loader engine base t) s
      → Explains (λ id. none) s.done (registry_of s.machine.state)
  unfolding sandbox_manager lookup
  threads_refine loader engine base t s reached =
      let v = sandbox_manager-IsValid os loader engine base t in
      let m : Machine SandboxManager = sandbox_manager os loader engine base t in
      let (_, k, _, replays, stands) = calls_in_order os m v s reached in
      let explained : Explains (λ id. none) s.done (registry_of k.state) =
        (Replays-Explains m k s.done v replays).1 in
      let same : registry_of k.state ≡ registry_of s.machine.state = elim stands [
        | inl e ↦ ap (λ (x : Machine SandboxManager). registry_of x.state) (sym e)
        | inr (j, d, _, _, e) ↦ registry_same k.state s.machine.state (
            sym (
              ap (λ (x : Machine SandboxManager). x.state.sandboxes) e
              ∙ (left_behind-kept os d k).0))
      ] in
      subst (λ q. Explains (λ id. none) s.done q) same explained
