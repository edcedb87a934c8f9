-- ===== src/Sandbox/Shutdown.antt =====
-- What `terminate_all` leaves: no sandbox, and no cgroup of one.
use aegis_sandbox.Prelude.{
  ◌≡◌, refl, ap, ◌∙◌, String, true, false, none, some, [], ◌∷◌, arith, Assoc, lookup, erase,
  has_key, IsDistinct, erase-IsDistinct, lookup-erase, eq_iff, if◌then◌else◌,
}
use aegis_sandbox.Prelude.Paths.{join}
use aegis_sandbox.Os.{Os, Machine, removed_all}
use aegis_sandbox.Cgroup.Manager.{CgroupInfo, destroy_cgroup, close_fd}
use aegis_sandbox.Cgroup.History.{destroy_cgroup-state}
use aegis_sandbox.Sandbox.Types.{SandboxInstance, SandboxManager, on_cgroups}
use aegis_sandbox.Sandbox.Steps.{kill_process, terminate_each, terminate_every}
use aegis_sandbox.Sandbox.Manager.{with_lock, set_locked, terminate_all}

-- The cgroups that are left when those of the sandboxes are erased.
abbrev erase_keys : Assoc SandboxInstance → Assoc CgroupInfo → Assoc CgroupInfo
erase_keys [] cgroups = cgroups
erase_keys ((id, i) ∷ rest) cgroups = erase_keys rest (erase id cgroups)

lookup-erase_keys :
    (j : String) (l : Assoc SandboxInstance) (c : Assoc CgroupInfo)
    → IsDistinct c
    → lookup j (erase_keys l c) ≡ (if has_key j l then none else lookup j c)
unfolding has_key lookup
lookup-erase_keys j [] c d = refl
lookup-erase_keys j ((id, i) ∷ rest) c d = ground (
  arith,
  lookup-erase_keys j rest (erase id c) (erase-IsDistinct id c d),
  lookup-erase id j c d,
  eq_iff id j,
)

module _ (os : Os) where
  -- The manager whose cgroups are those of `s` less those of the sandboxes.
  abbrev swept : Assoc SandboxInstance → SandboxManager → SandboxManager
  swept l s = record s {
    cgroup_manager = record (s.cgroup_manager) { cgroups = erase_keys l s.cgroup_manager.cgroups };
  }

  module _ (id : String) (i : SandboxInstance) (m : Machine SandboxManager) where
    -- The machine once the process and the TAP device of a sandbox are dealt with, and once its cgroup
    -- and its directory are removed.
    abbrev after_close : Machine SandboxManager
    after_close = (close_fd os i.tap_fd (kill_process os i.firecracker_pid m).1).1

    abbrev after_destroy : Machine SandboxManager
    after_destroy = (on_cgroups (destroy_cgroup os id) after_close).1

    abbrev after_one : Machine SandboxManager
    after_one = record after_destroy {
      trace = removed_all (join after_destroy.state.base_runtime_dir id) ∷ after_destroy.trace;
    }

    closed_state : after_close.state ≡ m.state
    unfolding kill_process
    closed_state = ground arith

    one_state : after_one.state ≡ swept ((id, i) ∷ []) m.state
    one_state = ground (
      arith,
      closed_state,
      destroy_cgroup-state os id
          (record { state = after_close.state.cgroup_manager; trace = after_close.trace }),
    )

  terminate_each-state :
      (l : Assoc SandboxInstance) (m : Machine SandboxManager)
      → (terminate_each os l m).1.state ≡ swept l m.state
  unfolding terminate_each
  terminate_each-state [] m = refl
  terminate_each-state ((id, i) ∷ rest) m =
      terminate_each-state rest (after_one id i m) ∙ ap (swept rest) (one_state id i m)

  -- On a manager whose mutex is free `terminate_all` returns. No sandbox is left, and of the cgroups
  -- exactly those of no sandbox; the mutex is free again.
  pub terminate_all_outcome :
      (m : Machine SandboxManager)
      → m.state.locked ≡ false
      → IsDistinct m.state.cgroup_manager.cgroups
      → (n : Machine SandboxManager) × (terminate_all os m ≡ some (tt, n))
        × (n.state.sandboxes ≡ [])
        × (n.state.locked ≡ false)
        × ((id : String)
            → lookup id n.state.cgroup_manager.cgroups ≡ (
                if has_key id m.state.sandboxes
                then none
                else lookup id m.state.cgroup_manager.cgroups))
  unfolding terminate_all with_lock terminate_every
  terminate_all_outcome m free d = (
    set_locked false (terminate_every os held).1,
    ground arith,
    refl,
    refl,
    λ id.
        ap (λ (s : SandboxManager). lookup id s.cgroup_manager.cgroups)
          (terminate_each-state m.state.sandboxes held)
        ∙ lookup-erase_keys id m.state.sandboxes m.state.cgroup_manager.cgroups d,
  )
    where
      held : Machine SandboxManager
      held = set_locked true m
