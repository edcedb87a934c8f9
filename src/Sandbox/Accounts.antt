-- ===== src/Sandbox/Accounts.antt =====
-- The descriptors of a sandbox manager through a creation.
use aegis_sandbox.Prelude.{
  ℕ, ◌+◌, ◌-◌, ◌≡◌, refl, ap, true, false, Option, none, some, arith, ◌||◌, inl, inr, Bool-cases,
  lookup, has_key, has_key-false,
}
use aegis_sandbox.Prelude.Paths.{is_empty}
use aegis_sandbox.Os.{Os, Machine}
use aegis_sandbox.Cgroup.Manager.{is_success}
use aegis_sandbox.Cgroup.Descriptors.{count}
use aegis_sandbox.Sandbox.Types.{SandboxConfig, SandboxInstance, SandboxManager}
use aegis_sandbox.Sandbox.Boot.{boot, apply_ebpf_policies}
use aegis_sandbox.Sandbox.Steps.{running_instance}
use aegis_sandbox.Sandbox.Manager.{create_sandbox, set_locked}
use aegis_sandbox.Sandbox.Prepare.{prepare_outcome, prepare_instance}
use aegis_sandbox.Sandbox.Start.{
  booted, applied, registered, start_blocks_boot, start_blocks_apply, start_registers,
}
use aegis_sandbox.Sandbox.Create.{prepared, refused, unprepared, blocked, finished}
use aegis_sandbox.Sandbox.Sockets.{Opens, boot-Opens, apply_ebpf_policies-Opens}
use aegis_sandbox.Sandbox.Descriptors.{taps, taps-assign, Held, IsAccounted, frame-Held}
use aegis_sandbox.Sandbox.Taps.{prepare-Held}

-- A call does not return, or leaves a machine with `P`.
abbrev pub Leaves :
    {A : Type 0} → (Machine SandboxManager → Type 0) → Option (A × Machine SandboxManager) → Type 0
Leaves P none = Unit
Leaves P (some (a, m)) = P m

module _ (os : Os) (n : ℕ) where
  registered-IsAccounted :
      (i : SandboxInstance) (t : ℕ) (p : Machine SandboxManager) (held : p.state.locked ≡ true)
      → Held n (count n i.tap_fd + taps n p.state.sandboxes) p
      → lookup i.config.sandbox_id p.state.sandboxes ≡ none
      → IsAccounted n (registered os i t p held)
  unfolding running_instance
  registered-IsAccounted i t p held h fresh =
      let b : Machine SandboxManager = (boot os i p).1 in
      let u : Machine SandboxManager = record {
        state = p.state;
        trace = (apply_ebpf_policies os i b).1.trace;
      } in
      let o : Opens n 0 p.trace u.trace =
        omega (arith, boot-Opens os n i p, apply_ebpf_policies-Opens os n i b) in
      let kept : Held n (count n i.tap_fd + taps n p.state.sandboxes) u =
        frame-Held os n (count n i.tap_fd + taps n p.state.sandboxes) p u refl o h in
      let bt : ℕ = os.now u.trace - t in
      omega (
        arith,
        kept,
        taps-assign n i.config.sandbox_id (running_instance i bt) p.state.sandboxes fresh,
      )

  module _ (config : SandboxConfig) (m : Machine SandboxManager) (free : m.state.locked ≡ false)
      (h : IsAccounted n m) where
    abbrev k : ℕ
    k = taps n m.state.sandboxes

    abbrev p : Machine SandboxManager
    p = (prepared os config m free).1

    abbrev i : SandboxInstance
    i = (prepared os config m free).0.1

    prepared_locked : is_success (prepared os config m free).0.0 ≡ true → p.state.locked ≡ true
    prepared_locked ok = elim (prepare_outcome os config (set_locked true m)) [
      | inl (_, _, (info, _, e)) ↦ ap (λ (s : SandboxManager). s.locked) e
      | inr (failed, _) ↦ absurd ground (arith, ok, failed)
    ]

    prepared_sandboxes : p.state.sandboxes ≡ m.state.sandboxes
    prepared_sandboxes = elim (prepare_outcome os config (set_locked true m)) [
      | inl (_, _, (info, _, e)) ↦ ap (λ (s : SandboxManager). s.sandboxes) e
      | inr (_, same) ↦ ap (λ (s : SandboxManager). s.sandboxes) same
    ]

    prepared_taps : taps n p.state.sandboxes ≡ k
    prepared_taps = ap (taps n) prepared_sandboxes

    unprepared-IsAccounted :
        is_success (prepared os config m free).0.0 ≡ false → IsAccounted n (set_locked false p)
    unprepared-IsAccounted failed =
        omega (arith, (prepare-Held os n k config (set_locked true m) h).1 failed, prepared_taps)

    ready-IsAccounted :
        (ok : is_success (prepared os config m free).0.0 ≡ true)
        → lookup config.sandbox_id m.state.sandboxes ≡ none
        → IsAccounted n (registered os i (os.now m.trace) p (prepared_locked ok))
    ready-IsAccounted ok fresh =
        registered-IsAccounted i (os.now m.trace) p (prepared_locked ok)
          (omega (arith, (prepare-Held os n k config (set_locked true m) h).0 ok, prepared_taps))
          (ground
            (arith, prepared_sandboxes, (prepare_instance os config (set_locked true m)).0, fresh))

    pub create_sandbox-IsAccounted : Leaves (IsAccounted n) (create_sandbox os config m)
    create_sandbox-IsAccounted =
        elim (Bool-cases
          (is_empty config.sandbox_id || has_key config.sandbox_id m.state.sandboxes)) [
            | inl bad ↦ rw (refused os config m free bad) h
            | inr good ↦ elim (Bool-cases (is_success (prepared os config m free).0.0)) [
              | inr failed ↦
                  rw (unprepared os config m free good failed) (unprepared-IsAccounted failed)
              | inl ok ↦
                  let held = prepared_locked ok in
                  let fresh = has_key-false config.sandbox_id m.state.sandboxes (ground arith) in
                  elim (Bool-cases (is_success (booted os i (os.now m.trace) p held).0)) [
                    | inr down ↦
                        rw
                          (blocked os config m free good ok
                            (start_blocks_boot os i (os.now m.trace) p held down))
                          tt
                    | inl up ↦
                        elim (Bool-cases (is_success (applied os i (os.now m.trace) p held).0)) [
                          | inr failed ↦
                              rw
                                (blocked os config m free good ok
                                  (start_blocks_apply os i (os.now m.trace) p held up failed))
                                tt
                          | inl done ↦
                              rw
                                (finished os config m free (registered os i (os.now m.trace) p held)
                                  good ok (start_registers os i (os.now m.trace) p held up done))
                                (ready-IsAccounted ok fresh)
                        ]
                  ]
            ]
          ]
