-- ===== src/Cgroup/History.antt =====
-- Any history of calls of the manager's methods that change its state, and what all of them keep.
use aegis_sandbox.Prelude.{
  ◌≡◌, refl, String, some, List, [], ◌∷◌, arith, lookup, erase, eq_iff, str_eq, IsDistinct,
  assign-IsDistinct, erase-IsDistinct, lookup-erase, lookup-assign, inl, inr, Option-cases,
  Bool-cases, erase_absent,
}
use aegis_sandbox.Prelude.Int.{ℤ}
use aegis_sandbox.Os.{Os, Trace, Machine}
use aegis_sandbox.Cgroup.Manager.{
  CgroupLimits, CgroupInfo, CgroupManager, cgroup_manager, create_cgroup, attach_pid,
  destroy_cgroup, destroy_all, write_sysfs_file,
}
use aegis_sandbox.Cgroup.Create.{Entry, create_cgroup_outcome, write_sysfs_file-state}

pub data Command : Type 0 where
  creates : String → CgroupLimits → Command
  attaches : String → ℤ → Command
  destroys : String → Command
  destroys_all : Command

-- Every entry is complete, and no id has two.
pub record IsValid (c : CgroupManager) : Type 0 where
  pub distinct : IsDistinct c.cgroups
  pub entries :
      (id : String) (info : CgroupInfo)
      → lookup id c.cgroups ≡ some info
      → Entry c.root_path id info.limits info

module _ (os : Os) where
  unfoldable pub step : Command → Machine CgroupManager → Machine CgroupManager
  step (creates id limits) m = (create_cgroup os id limits m).1
  step (attaches id pid) m = (attach_pid os id pid m).1
  step (destroys id) m = (destroy_cgroup os id m).1
  step destroys_all m = (destroy_all os m).1

  unfoldable pub run : List Command → Machine CgroupManager → Machine CgroupManager
  unfolding step
  run [] m = m
  run (c ∷ cs) m = run cs (step c m)

  pub attach_pid-state :
      (id : String) (pid : ℤ) (m : Machine CgroupManager)
      → (attach_pid os id pid m).1.state ≡ m.state
  unfolding attach_pid
  attach_pid-state id pid m = grind (arith, write_sysfs_file-state)

  -- The entry that `destroy_cgroup` erases is the only change of the manager.
  pub destroy_cgroup-state :
      (id : String) (m : Machine CgroupManager)
      → (destroy_cgroup os id m).1.state ≡ record (m.state) { cgroups = erase id m.state.cgroups }
  unfolding destroy_cgroup
  destroy_cgroup-state id m = elim (Option-cases (lookup id m.state.cgroups)) [
    | inl absent ↦ ground (arith, erase_absent id m.state.cgroups)
    | inr (info, found) ↦ ground arith
  ]

  creates-IsValid :
      (id : String) (limits : CgroupLimits) (m : Machine CgroupManager)
      → IsValid m.state
      → IsValid (create_cgroup os id limits m).1.state
  creates-IsValid id limits m v = elim (create_cgroup_outcome os id limits m) [
    | inl (_, fresh, (info, e, s)) ↦ rw s (record {
      distinct = assign-IsDistinct id info m.state.cgroups v.distinct;
      entries = λ j i h. elim (Bool-cases (str_eq id j)) [
        | inl same ↦
            let p : info ≡ i = ground (arith, lookup-assign id j info m.state.cgroups) in
            rw (← p, ← (eq_iff id j).0 same)
              (record {
                named = e.named;
                placed = e.placed;
                numbered = e.numbered;
                held = e.held;
                limited = refl;
              })
        | inr other ↦ v.entries j i (ground (arith, lookup-assign id j info m.state.cgroups))
      ];
    })
    | inr (_, (s, _)) ↦ rw s v
  ]

  -- Every call keeps the manager valid.
  pub step-IsValid :
      (c : Command) (m : Machine CgroupManager) → IsValid m.state → IsValid (step c m).state
  unfolding step destroy_all lookup
  step-IsValid (creates id limits) m v = creates-IsValid id limits m v
  step-IsValid (attaches id pid) m v = rw (attach_pid-state id pid m) v
  step-IsValid (destroys id) m v = rw (destroy_cgroup-state id m) (record {
    distinct = erase-IsDistinct id m.state.cgroups v.distinct;
    entries =
        λ j info h. v.entries j info (ground (arith, lookup-erase id j m.state.cgroups v.distinct));
  })
  step-IsValid destroys_all m v = record { distinct = tt; entries = λ j i h. ground arith }

  pub run-IsValid :
      (cs : List Command) (m : Machine CgroupManager) → IsValid m.state → IsValid (run cs m).state
  unfolding run
  run-IsValid [] m v = v
  run-IsValid (c ∷ cs) m v = run-IsValid cs (step c m) (step-IsValid c m v)

  -- A manager as its constructor leaves it.
  abbrev pub started : String → Trace → Machine CgroupManager
  started root t = let (c, t') = cgroup_manager os root t in record { state = c; trace = t' }

  pub cgroup_manager-state :
      (root : String) (t : Trace)
      → (cgroup_manager os root t).0 ≡ record { root_path = root; cgroups = [] }
  unfolding cgroup_manager write_sysfs_file
  cgroup_manager-state root t = ground arith

  -- After any history of calls each id has one entry, and every entry is complete: named by its id,
  -- placed under the root, with a nonzero number and an open descriptor.
  run-started-IsValid :
      (root : String) (t : Trace) (cs : List Command) → IsValid (run cs (started root t)).state
  unfolding lookup
  run-started-IsValid root t cs =
      run-IsValid cs (started root t) (
        rw (cgroup_manager-state root t)
          (record { distinct = tt; entries = λ j i h. ground arith }))
