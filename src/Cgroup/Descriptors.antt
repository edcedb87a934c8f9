-- ===== src/Cgroup/Descriptors.antt =====
-- The directory descriptors of the cgroups: every one that a history of calls opens is closed
-- exactly once, or is held by an entry.
use aegis_sandbox.Prelude.{
  ℕ, ◌+◌, ◌≡◌, refl, String, none, some, List, [], ◌∷◌, arith, ◌==◌, Assoc, lookup, assign, erase,
  has_key-false, str_eq, if◌then◌else◌, inl, inr, Option-cases, Bool-cases,
}
use aegis_sandbox.Prelude.Int.{ℤ, pos, negsuc}
use aegis_sandbox.Prelude.Paths.{join}
use aegis_sandbox.Os.{
  Os, Event, Trace, Machine, opened_dir, opened_tun, opened_socket, closed, removed_all,
}
use aegis_sandbox.Cgroup.Manager.{
  CgroupLimits, CgroupInfo, CgroupManager, cgroup_manager, create_cgroup, create_directories,
  attach_pid, destroy_cgroup, destroy_each, destroy_all, close_fd, write_sysfs_file, apply_limits,
  fetch_inode_id,
}
use aegis_sandbox.Cgroup.Create.{entry}
use aegis_sandbox.Cgroup.History.{
  Command, creates, attaches, destroys, destroys_all, step, run, started,
}

-- 1 for the descriptor itself.
abbrev pub count : ℕ → ℤ → ℕ
count n (pos m) = if m == n then 1 else 0
count n (negsuc m) = 0

unfoldable pub opens_event : ℕ → Event → ℕ
opens_event n (opened_dir path fd) = count n fd
opens_event n (opened_tun fd) = count n fd
opens_event n (opened_socket fd) = count n fd
opens_event n _ = 0

unfoldable pub closes_event : ℕ → Event → ℕ
closes_event n (closed fd) = count n fd
closes_event n _ = 0

-- How often a trace opens and closes the descriptor `n`.
unfoldable pub opens : ℕ → Trace → ℕ
unfolding opens_event
opens n [] = 0
opens n (e ∷ t) = opens_event n e + opens n t

unfoldable pub closes : ℕ → Trace → ℕ
unfolding closes_event
closes n [] = 0
closes n (e ∷ t) = closes_event n e + closes n t

-- How many entries hold it.
unfoldable pub holds : ℕ → Assoc CgroupInfo → ℕ
holds n [] = 0
holds n ((k, info) ∷ rest) = count n info.cgroup_fd + holds n rest

-- The descriptor is closed, held by an entry, or one of `k` others for each time that it was opened.
abbrev pub IsBalanced : ℕ → ℕ → Machine CgroupManager → Type 0
IsBalanced n k m = opens n m.trace ≡ closes n m.trace + (holds n m.state.cgroups + k)

holds-assign :
    (n : ℕ) (k : String) (info : CgroupInfo) (c : Assoc CgroupInfo)
    → lookup k c ≡ none
    → holds n (assign k info c) ≡ count n info.cgroup_fd + holds n c
unfolding holds lookup assign
holds-assign n k info [] h = refl
holds-assign n k info ((j, i) ∷ c) h = elim (Bool-cases (str_eq j k)) [
  | inl same ↦ ground arith
  | inr other ↦ rw other (omega (arith, holds-assign n k info c (ground arith)))
]

holds-erase :
    (n : ℕ) (k : String) (info : CgroupInfo) (c : Assoc CgroupInfo)
    → lookup k c ≡ some info
    → holds n c ≡ count n info.cgroup_fd + holds n (erase k c)
unfolding holds lookup erase
holds-erase n k info [] h = ground arith
holds-erase n k info ((j, i) ∷ c) h = elim (Bool-cases (str_eq j k)) [
  | inl same ↦ ground arith
  | inr other ↦ rw other (omega (arith, holds-erase n k info c (ground arith)))
]

module _ (os : Os) (n k : ℕ) where
  apply_limits_quiet :
      (path : String) (l : CgroupLimits) (m : Machine CgroupManager)
      → (opens n (apply_limits os path l m).1.trace ≡ opens n m.trace)
        × (closes n (apply_limits os path l m).1.trace ≡ closes n m.trace)
        × ((apply_limits os path l m).1.state ≡ m.state)
  unfolding apply_limits write_sysfs_file opens closes
  apply_limits_quiet path l m = (ground arith, ground arith, ground arith)

  pub creates-IsBalanced :
      (id : String) (l : CgroupLimits) (m : Machine CgroupManager)
      → IsBalanced n k m
      → IsBalanced n k (create_cgroup os id l m).1
  unfolding create_cgroup fetch_inode_id opens closes
  creates-IsBalanced id l m b = ground (
    arith,
    apply_limits_quiet (join m.state.root_path id) l
        (create_directories os (join m.state.root_path id) m).1,
    has_key-false id m.state.cgroups,
    holds-assign n id (entry os id l m) m.state.cgroups,
  )

  pub attaches-IsBalanced :
      (id : String) (pid : ℤ) (m : Machine CgroupManager)
      → IsBalanced n k m
      → IsBalanced n k (attach_pid os id pid m).1
  unfolding attach_pid write_sysfs_file opens closes
  attaches-IsBalanced id pid m b = ground arith

  pub destroys-IsBalanced :
      (id : String) (m : Machine CgroupManager)
      → IsBalanced n k m
      → IsBalanced n k (destroy_cgroup os id m).1
  unfolding destroy_cgroup opens closes
  destroys-IsBalanced id m b = elim (Option-cases (lookup id m.state.cgroups)) [
    | inl absent ↦ ground arith
    | inr (info, found) ↦ ground (arith, holds-erase n id info m.state.cgroups)
  ]

  -- The loop closes what the entries hold.
  pub destroy_each_quiet :
      (c : Assoc CgroupInfo) (m : Machine CgroupManager)
      → (opens n (destroy_each os c m).1.trace ≡ opens n m.trace)
        × (closes n (destroy_each os c m).1.trace ≡ closes n m.trace + holds n c)
  unfolding destroy_each opens closes holds
  destroy_each_quiet [] m = (refl, omega arith)
  destroy_each_quiet ((k, info) ∷ c) m =
      let after : Machine CgroupManager = (close_fd os info.cgroup_fd m).1 in
      let ih =
        destroy_each_quiet c
          (record after { trace = removed_all info.cgroup_path ∷ after.trace }) in
      (ground arith, ground arith)

  step-IsBalanced :
      (c : Command) (m : Machine CgroupManager) → IsBalanced n k m → IsBalanced n k (step os c m)
  unfolding step destroy_all holds
  step-IsBalanced (creates id l) m b = creates-IsBalanced id l m b
  step-IsBalanced (attaches id pid) m b = attaches-IsBalanced id pid m b
  step-IsBalanced (destroys id) m b = destroys-IsBalanced id m b
  step-IsBalanced destroys_all m b = omega (arith, destroy_each_quiet m.state.cgroups m)

  run-IsBalanced :
      (cs : List Command) (m : Machine CgroupManager)
      → IsBalanced n k m
      → IsBalanced n k (run os cs m)
  unfolding run
  run-IsBalanced [] m b = b
  run-IsBalanced (c ∷ cs) m b = run-IsBalanced cs (step os c m) (step-IsBalanced c m b)

  pub cgroup_manager-quiet :
      (root : String) (t : Trace)
      → (opens n (cgroup_manager os root t).1 ≡ opens n t)
        × (closes n (cgroup_manager os root t).1 ≡ closes n t)
        × ((cgroup_manager os root t).0.cgroups ≡ [])
  unfolding cgroup_manager write_sysfs_file opens closes
  cgroup_manager-quiet root t = (ground arith, ground arith, ground arith)

module _ (os : Os) (n : ℕ) where
  started-IsBalanced : (root : String) → IsBalanced n 0 (started os root [])
  unfolding opens closes holds
  started-IsBalanced root = ground (arith, cgroup_manager-quiet os n 0 root [])

  -- From the constructor on, whatever the calls, a descriptor has been opened as often as it has been
  -- closed and is held by entries, taken together.
  descriptors_accounted :
      (root : String) (cs : List Command)
      → opens n (run os cs (started os root [])).trace
        ≡ closes n (run os cs (started os root [])).trace
          + holds n (run os cs (started os root [])).state.cgroups
  descriptors_accounted root cs =
      omega (arith, run-IsBalanced os n 0 cs (started os root []) (started-IsBalanced root))

  -- After `destroy_all`, which the destructor calls too, every descriptor is closed as often as it
  -- was opened.
  destroy_all-closes :
      (root : String) (cs : List Command)
      → opens n (destroy_all os (run os cs (started os root []))).1.trace
        ≡ closes n (destroy_all os (run os cs (started os root []))).1.trace
  unfolding destroy_all
  destroy_all-closes root cs = omega (
    arith,
    destroy_each_quiet os n 0 (run os cs (started os root [])).state.cgroups
        (run os cs (started os root [])),
    descriptors_accounted root cs,
  )
