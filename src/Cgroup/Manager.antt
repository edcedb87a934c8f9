-- ===== src/Cgroup/Manager.antt =====
-- include/aegis/runtime/cgroup_manager.hpp and src/runtime/cgroup_manager.cpp. Each method holds the
-- manager's lock from beginning to end and calls no other public method under it, so it is one step.
use aegis_sandbox.Prelude.{
  ℕ, ◌*◌, ◌^◌, ◌%◌, String, append, Bool, true, false, not, Option, none, some, [], ◌∷◌, decimal,
  Assoc, lookup, assign, erase, has_key, ◌==◌,
}
use aegis_sandbox.Prelude.Int.{ℤ, is_neg, minus_one}
use aegis_sandbox.Prelude.Paths.{join, parent_path}
use aegis_sandbox.Core.{Status, success, err_cgroup_quota_exceeded, err_invalid_sandbox_id}
use aegis_sandbox.Os.{
  Os, Trace, unless_return, unless_do, when, made_dirs, removed_all, wrote_file, opened_dir, closed,
  Machine, Exec, pure, ◌>>=◌, ◌>>◌, get, put, record_event, ask, call,
}

pub record CgroupLimits : Type 0 where
  pub cpu_cores : ℕ
  pub memory_mb : ℕ
  pub vram_mb : ℕ
  pub max_pids : ℕ

pub record CgroupInfo : Type 0 where
  pub sandbox_id : String
  pub cgroup_path : String
  pub cgroup_id : ℕ
  pub cgroup_fd : ℤ
  pub limits : CgroupLimits

pub record CgroupManager : Type 0 where
  pub root_path : String
  pub cgroups : Assoc CgroupInfo

-- `status == Status::Success`
abbrev pub is_success : Status → Bool
is_success success = true
is_success _ = false

-- `static_cast<uint64_t>(limits.cpu_cores) * 100000ULL`
unfoldable pub cpu_quota : ℕ → ℕ
cpu_quota cpu_cores = cpu_cores * 100000 % 2 ^ 64

-- `static_cast<uint64_t>(limits.memory_mb) * 1024ULL * 1024ULL`
unfoldable pub memory_bytes : ℕ → ℕ
memory_bytes memory_mb = memory_mb * 1024 % 2 ^ 64 * 1024 % 2 ^ 64

-- Of a pid, which may be negative.
unfoldable pub decimal_int : ℤ → String
decimal_int (ℤ.pos n) = decimal n
decimal_int (ℤ.negsuc n) = append "-" (decimal (ℕ.suc n))

unfoldable pub get_cgroup_id : CgroupManager → String → ℕ
get_cgroup_id c sandbox_id = elim (lookup sandbox_id c.cgroups) [
  | none ↦ 0
  | some info ↦ info.cgroup_id
]

unfoldable pub get_cgroup_fd : CgroupManager → String → ℤ
get_cgroup_fd c sandbox_id = elim (lookup sandbox_id c.cgroups) [
  | none ↦ minus_one
  | some info ↦ info.cgroup_fd
]

unfoldable pub get_cgroup_info : CgroupManager → String → Option CgroupInfo
get_cgroup_info c sandbox_id = lookup sandbox_id c.cgroups

module _ (os : Os) where
  -- `file << value; return file.good();` The stream buffers the text, which is shorter than its
  -- buffer, so `good()` holds; the text is written out when the stream is destroyed, and an error
  -- there is not reported.
  unfoldable pub write_sysfs_file : {S : Type 0} → String → String → Exec S Bool
  write_sysfs_file path value = do
    opened ← ask (λ t. os.opens_file t path)
    unless_return opened false
        do taken ← call (λ t. os.accepts t path value) (wrote_file path value); pure true

  unfoldable pub apply_limits : {S : Type 0} → String → CgroupLimits → Exec S Status
  apply_limits cgroup_path limits = do
    cpu ←
        write_sysfs_file (join cgroup_path "cpu.max")
          (append (decimal (cpu_quota limits.cpu_cores)) " 100000")
    unless_return cpu err_cgroup_quota_exceeded do
      memory ←
          write_sysfs_file (join cgroup_path "memory.max") (decimal (memory_bytes limits.memory_mb))
      unless_return memory err_cgroup_quota_exceeded do
        pids ← write_sysfs_file (join cgroup_path "pids.max") (decimal limits.max_pids)
        unless_return pids err_cgroup_quota_exceeded (pure success)

  -- 0 if `stat` fails.
  unfoldable pub fetch_inode_id : {S : Type 0} → String → Exec S ℕ
  fetch_inode_id path = do
    found ← ask (λ t. os.stat t path)
    pure (elim found [ none ↦ 0 | some ino ↦ ino ])

  -- `std::filesystem::create_directories`: whether it sets no error.
  abbrev pub create_directories : {S : Type 0} → String → Exec S Bool
  create_directories path = call (λ t. os.create_directories t path) (made_dirs path)

  unfoldable pub cgroup_manager : String → Trace → CgroupManager × Trace
  cgroup_manager root trace = after (opened (record { state = fresh; trace = trace }))
    where
      fresh : CgroupManager
      fresh = record { root_path = root; cgroups = [] }

      opened : Exec CgroupManager Bool
      opened = do
        made ← create_directories root
        unless_return made false do
          write_sysfs_file (join (parent_path root) "cgroup.subtree_control") "+cpu +memory +pids"

      after : Bool × Machine CgroupManager → CgroupManager × Trace
      after (done, m) = (m.state, m.trace)

  unfoldable pub create_cgroup : String → CgroupLimits → Exec CgroupManager Status
  create_cgroup sandbox_id limits = do
    c ← get
    unless_return (not (has_key sandbox_id c.cgroups)) err_invalid_sandbox_id do
      let path = join c.root_path sandbox_id
      made ← create_directories path
      unless_return made err_cgroup_quota_exceeded do
        status ← apply_limits path limits
        unless_do (is_success status) (do record_event (removed_all path); pure status)
            do
              cgroup_id ← fetch_inode_id path
              unless_do (not (cgroup_id == 0))
                  (do record_event (removed_all path); pure err_cgroup_quota_exceeded)
                  do
                    cgroup_fd ← call (λ t. os.open_dir t path) (opened_dir path)
                    unless_do (not (is_neg cgroup_fd))
                        (do record_event (removed_all path); pure err_cgroup_quota_exceeded)
                        do
                          let info : CgroupInfo = record {
                            sandbox_id = sandbox_id;
                            cgroup_path = path;
                            cgroup_id = cgroup_id;
                            cgroup_fd = cgroup_fd;
                            limits = limits;
                          }
                          put (record c { cgroups = assign sandbox_id info c.cgroups })
                          pure success

  unfoldable pub attach_pid : String → ℤ → Exec CgroupManager Status
  attach_pid sandbox_id pid m = elim (lookup sandbox_id m.state.cgroups) [
    | none ↦ (err_invalid_sandbox_id, m)
    | some info ↦
        (do
          written ← write_sysfs_file (join info.cgroup_path "cgroup.procs") (decimal_int pid)
          unless_return written err_cgroup_quota_exceeded (pure success))
          m
  ]

  -- Close a descriptor unless it is negative.
  abbrev pub close_fd : {S : Type 0} → ℤ → Exec S (Unit {0})
  close_fd fd = when (not (is_neg fd)) (record_event (closed fd))

  unfoldable pub destroy_cgroup : String → Exec CgroupManager Status
  destroy_cgroup sandbox_id m = elim (lookup sandbox_id m.state.cgroups) [
    | none ↦ (err_invalid_sandbox_id, m)
    | some info ↦
        (do
          close_fd info.cgroup_fd
          record_event (removed_all info.cgroup_path)
          put (record (m.state) { cgroups = erase sandbox_id m.state.cgroups })
          pure success)
          m
  ]

  -- The loop of `destroy_all`.
  unfoldable pub destroy_each : Assoc CgroupInfo → Exec CgroupManager (Unit {0})
  destroy_each [] = pure tt
  destroy_each ((id, info) ∷ rest) = do
    close_fd info.cgroup_fd
    record_event (removed_all info.cgroup_path)
    destroy_each rest

  -- Also what the destructor does.
  unfoldable pub destroy_all : Exec CgroupManager (Unit {0})
  destroy_all = do c ← get; destroy_each c.cgroups; put (record c { cgroups = [] })
