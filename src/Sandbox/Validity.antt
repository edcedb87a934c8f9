-- ===== src/Sandbox/Validity.antt =====
-- When the sandbox manager is valid, and which changes keep it so.
use aegis_sandbox.Prelude.{
  ◌≡◌, inl, inr, refl, String, true, false, none, some, [], ◌∷◌, arith, Assoc, lookup, assign,
  has_key, has_key-false, IsDistinct, assign-IsDistinct, erase-IsDistinct, lookup-assign,
  lookup-erase, eq_iff, str_eq, eq_refl, Bool-cases, if◌then◌else◌,
}
use aegis_sandbox.Core.{running}
use aegis_sandbox.Os.{Os, Machine}
use aegis_sandbox.Cgroup.Manager.{CgroupInfo}
use aegis_sandbox.Sandbox.Types.{SandboxConfig, SandboxInstance, SandboxManager}
use aegis_sandbox.Sandbox.Create.{Registered}
use aegis_sandbox.Sandbox.Terminate.{without}

-- An instance that is up, under the id `id` and with a cgroup of its limits.
pub record Live (s : SandboxManager) (id : String) (i : SandboxInstance) : Type 0 where
  pub active : i.is_active ≡ true
  pub state : i.metadata.state ≡ running
  pub named : i.metadata.sandbox_id ≡ id
  pub cgroup : CgroupInfo
  pub found : lookup id s.cgroup_manager.cgroups ≡ some cgroup
  pub limited : cgroup.limits ≡ i.config.resource_limits

-- The mutex is free, no id has two sandboxes or cgroups, every sandbox is up, and the cgroups are those
-- of the sandboxes.
pub record IsValid (s : SandboxManager) : Type 0 where
  pub free : s.locked ≡ false
  pub distinct : IsDistinct s.sandboxes
  pub distinct_cgroups : IsDistinct s.cgroup_manager.cgroups
  pub live : (id : String) (i : SandboxInstance) → lookup id s.sandboxes ≡ some i → Live s id i
  pub matched :
      (id : String) → lookup id s.sandboxes ≡ none → lookup id s.cgroup_manager.cgroups ≡ none

Registered-Live :
    (config : SandboxConfig) (s t : SandboxManager) (j : String) (i : SandboxInstance)
    → IsValid s
    → Registered config s t
    → lookup j t.sandboxes ≡ some i
    → Live t j i
Registered-Live config s t j i v r h = elim (Bool-cases (str_eq config.sandbox_id j)) [
  | inl same ↦
      let e : config.sandbox_id ≡ j = (eq_iff config.sandbox_id j).0 same in
      let p : r.instance ≡ i = ground (arith, r.result, new_sandbox) in
      rw (← p, ← e)
        (record {
          active = r.active;
          state = r.runs;
          named = r.identified;
          cgroup = r.info;
          found = ground (
            arith,
            r.result,
            lookup-assign config.sandbox_id config.sandbox_id r.info s.cgroup_manager.cgroups,
            e,
          );
          limited = ground (arith, r.entry.limited, r.configured);
        })
  | inr other ↦
      let l : Live s j i = v.live j i (ground (arith, r.result, new_sandbox)) in
      record {
        active = l.active;
        state = l.state;
        named = l.named;
        cgroup = l.cgroup;
        found = ground (arith, r.result, new_cgroup, l.found);
        limited = l.limited;
      }
]
  where
    new_sandbox :
        lookup j (assign config.sandbox_id r.instance s.sandboxes)
        ≡ (if str_eq config.sandbox_id j then some r.instance else lookup j s.sandboxes)
    new_sandbox = lookup-assign config.sandbox_id j r.instance s.sandboxes

    new_cgroup :
        lookup j (assign config.sandbox_id r.info s.cgroup_manager.cgroups)
        ≡ (if str_eq config.sandbox_id j then some r.info else lookup j s.cgroup_manager.cgroups)
    new_cgroup = lookup-assign config.sandbox_id j r.info s.cgroup_manager.cgroups

pub Registered-IsValid :
    (config : SandboxConfig) (s t : SandboxManager) → IsValid s → Registered config s t → IsValid t
Registered-IsValid config s t v r = record {
  free = ground (arith, r.result, v.free);
  distinct = rw r.result (assign-IsDistinct config.sandbox_id r.instance s.sandboxes v.distinct);
  distinct_cgroups =
      rw r.result
        (assign-IsDistinct config.sandbox_id r.info s.cgroup_manager.cgroups v.distinct_cgroups);
  live = λ j i h. Registered-Live config s t j i v r h;
  matched = λ j h. ground (
    arith,
    r.result,
    lookup-assign config.sandbox_id j r.instance s.sandboxes,
    lookup-assign config.sandbox_id j r.info s.cgroup_manager.cgroups,
    v.matched j,
  );
}

lookup-nothing : (c : Assoc CgroupInfo) → ((id : String) → lookup id c ≡ none) → c ≡ []
unfolding lookup
lookup-nothing [] h = refl
lookup-nothing ((k, info) ∷ c) h = ground (arith, h k, eq_refl k)

pub emptied-IsValid :
    (s : SandboxManager)
    → s.locked ≡ false
    → s.sandboxes ≡ []
    → ((id : String) → lookup id s.cgroup_manager.cgroups ≡ none)
    → IsValid s
unfolding lookup
emptied-IsValid s free none_left gone = record {
  free = free;
  distinct = rw none_left tt;
  distinct_cgroups = rw (lookup-nothing s.cgroup_manager.cgroups gone) tt;
  live = λ j i h. ground (arith, none_left);
  matched = λ j h. gone j;
}

-- The cgroups that `terminate_all` leaves to a valid manager.
pub all_gone :
    (m n : Machine SandboxManager)
    → IsValid m.state
    → ((id : String)
        → lookup id n.state.cgroup_manager.cgroups ≡ (
            if has_key id m.state.sandboxes
            then none
            else lookup id m.state.cgroup_manager.cgroups))
    → (id : String) → lookup id n.state.cgroup_manager.cgroups ≡ none
all_gone m n v left id = ground (arith, left id, v.matched id, has_key-false id m.state.sandboxes)

module _ (os : Os) where
  pub without-IsValid :
      (id : String) (m : Machine SandboxManager) → IsValid m.state → IsValid (without os id m)
  without-IsValid id m v = record {
    free = v.free;
    distinct = erase-IsDistinct id m.state.sandboxes v.distinct;
    distinct_cgroups = erase-IsDistinct id m.state.cgroup_manager.cgroups v.distinct_cgroups;
    live = λ j i h.
        let l : Live m.state j i =
          v.live j i (ground (arith, lookup-erase id j m.state.sandboxes v.distinct)) in
        record {
          active = l.active;
          state = l.state;
          named = l.named;
          cgroup = l.cgroup;
          found = ground (
            arith,
            h,
            lookup-erase id j m.state.sandboxes v.distinct,
            lookup-erase id j m.state.cgroup_manager.cgroups v.distinct_cgroups,
            l.found,
          );
          limited = l.limited;
        };
    matched = λ j h. ground (
      arith,
      lookup-erase id j m.state.sandboxes v.distinct,
      lookup-erase id j m.state.cgroup_manager.cgroups v.distinct_cgroups,
      v.matched j,
    );
  }
