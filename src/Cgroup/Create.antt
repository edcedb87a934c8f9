-- ===== src/Cgroup/Create.antt =====
-- What `create_cgroup` does: a complete entry on success, no change of the table on any failure.
use aegis_sandbox.Prelude.{
  ◌≡◌, ◌≢◌, ◌⊎◌, inl, inr, refl, String, false, ◌∷◌, arith, assign, has_key, Bool-cases,
}
use aegis_sandbox.Prelude.Int.{is_neg}
use aegis_sandbox.Prelude.Paths.{join}
use aegis_sandbox.Core.{success}
use aegis_sandbox.Os.{Os, Machine, removed_all, made_dirs, Latest}
use aegis_sandbox.Cgroup.Manager.{
  CgroupLimits, CgroupInfo, CgroupManager, is_success, write_sysfs_file, apply_limits,
  fetch_inode_id, create_cgroup, create_directories,
}

module _ (os : Os) {S : Type 0} where
  pub write_sysfs_file-state :
      (path value : String) (m : Machine S) → (write_sysfs_file os path value m).1.state ≡ m.state
  unfolding write_sysfs_file
  write_sysfs_file-state path value m = ground arith

  -- Writing the limits is no change of the manager.
  pub apply_limits-state :
      (path : String) (l : CgroupLimits) (m : Machine S)
      → (apply_limits os path l m).1.state ≡ m.state
  unfolding apply_limits
  apply_limits-state path l m = grind (arith, write_sysfs_file-state)

  pub fetch_inode_id-machine : (path : String) (m : Machine S) → (fetch_inode_id os path m).1 ≡ m
  unfolding fetch_inode_id
  fetch_inode_id-machine path m = refl

-- The entry that a successful call makes.
pub record Entry (root id : String) (limits : CgroupLimits) (info : CgroupInfo) : Type 0 where
  pub named : info.sandbox_id ≡ id
  pub placed : info.cgroup_path ≡ join root id
  pub numbered : info.cgroup_id ≢ 0
  pub held : is_neg info.cgroup_fd ≡ false
  pub limited : info.limits ≡ limits

module _ (os : Os) (id : String) (limits : CgroupLimits) (m : Machine CgroupManager) where
  abbrev pub after : Machine CgroupManager
  after = (create_cgroup os id limits m).1

  abbrev pub path : String
  path = join m.state.root_path id

  abbrev pub limited : Machine CgroupManager
  limited = (apply_limits os path limits (create_directories os path m).1).1

  abbrev pub entry : CgroupInfo
  entry = record {
    sandbox_id = id;
    cgroup_path = path;
    cgroup_id = (fetch_inode_id os path limited).0;
    cgroup_fd = os.open_dir limited.trace path;
    limits = limits;
  }

  success_facts :
      (create_cgroup os id limits m).0 ≡ success
      → (has_key id m.state.cgroups ≡ false)
        × Entry m.state.root_path id limits entry
        × (after.state ≡ record (m.state) { cgroups = assign id entry m.state.cgroups })
  unfolding create_cgroup fetch_inode_id
  success_facts h = ground (arith)

  -- A failed call leaves the table, and of a directory that it made no more than its removal.
  abbrev pub Undone : Type 0
  Undone =
      (after.state ≡ m.state)
      × ((after.trace ≡ m.trace)
          ⊎ (after.trace ≡ made_dirs path false ∷ m.trace)
          ⊎ Latest (removed_all path) after.trace)

  failure_state : (create_cgroup os id limits m).0 ≢ success → after.state ≡ m.state
  unfolding create_cgroup fetch_inode_id
  failure_state h =
      ground (arith, apply_limits-state os path limits (create_directories os path m).1)

  failure_trace :
      (create_cgroup os id limits m).0 ≢ success
      → (after.trace ≡ m.trace)
        ⊎ (after.trace ≡ made_dirs path false ∷ m.trace)
        ⊎ Latest (removed_all path) after.trace
  unfolding create_cgroup fetch_inode_id
  failure_trace h = ground arith

  -- `create_cgroup` succeeds only for a new id, and then adds one entry, named by the id, placed under
  -- the root, with a nonzero number, an open descriptor and the limits that were asked for; in all
  -- other cases the table stays as it was, and a directory that the call made is removed last.
  pub create_cgroup_outcome :
      (((create_cgroup os id limits m).0 ≡ success)
        × (has_key id m.state.cgroups ≡ false)
        × ((info : CgroupInfo) × Entry m.state.root_path id limits info
            × (after.state ≡ record (m.state) { cgroups = assign id info m.state.cgroups })))
      ⊎ (((create_cgroup os id limits m).0 ≢ success) × Undone)
  create_cgroup_outcome = elim (Bool-cases (is_success (create_cgroup os id limits m).0)) [
    | inl done ↦
        let e : (create_cgroup os id limits m).0 ≡ success = ground arith in
        let facts = success_facts e in inl (e, facts.0, (entry, facts.1, facts.2))
    | inr failed ↦
        let e : (create_cgroup os id limits m).0 ≢ success = ground arith in
        inr (e, (failure_state e, failure_trace e))
  ]
