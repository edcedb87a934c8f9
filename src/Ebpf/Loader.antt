-- ===== src/Ebpf/Loader.antt =====
-- include/aegis/ebpf/ebpf_loader.hpp and src/ebpf/ebpf_loader.cpp. libbpf's objects and links are the
-- handles that `Os` hands out. Each method holds the loader's lock from beginning to end
-- (`get_map_fd` takes none and is called under it), so it is one step.
use aegis_sandbox.Prelude.{
  ℕ, String, Bool, true, false, not, Option, none, some, List, [], ◌∷◌, ◌++◌, Assoc, lookup, assign,
  if◌then◌else◌,
}
use aegis_sandbox.Prelude.Int.{ℤ, is_neg, is_zero, minus_one}
use aegis_sandbox.Core.{Status, success, err_ebpf_probe_load_failed}
use aegis_sandbox.Os.{
  Os, Target, tracepoint, cgroup, Exec, opened_object, loaded_object, closed_object, attached,
  destroyed_link, updated_map, pure, ◌>>=◌, ◌>>◌, get, put, record_event, ask, call, unless_return,
  unless_do,
}

pub record EbpfProgramMetadata : Type 0 where
  pub program_name : String
  pub object_file_path : String
  pub is_loaded : Bool
  pub is_attached : Bool

pub record EbpfLoader : Type 0 where
  pub bpf_obj : Option ℕ
  -- The oldest link first.
  pub bpf_links : List ℕ
  pub programs : Assoc EbpfProgramMetadata
  pub is_loaded : Bool

-- The constructor.
abbrev pub ebpf_loader : EbpfLoader
ebpf_loader = record { bpf_obj = none; bpf_links = []; programs = []; is_loaded = false }

-- The loop over the programs of an object.
unfoldable pub note_programs :
    String → List String → Assoc EbpfProgramMetadata → Assoc EbpfProgramMetadata
note_programs path [] programs = programs
note_programs path (name ∷ names) programs = note_programs path names (assign name meta programs)
  where
    meta : EbpfProgramMetadata
    meta = record {
      program_name = name;
      object_file_path = path;
      is_loaded = true;
      is_attached = false;
    }

-- `it->second.is_attached = true`, if the program is known.
unfoldable pub mark_attached : String → Assoc EbpfProgramMetadata → Assoc EbpfProgramMetadata
mark_attached name programs = elim (lookup name programs) [
  | none ↦ programs
  | some meta ↦ assign name (record meta { is_attached = true }) programs
]

-- The loop of `detach_all` over the programs.
unfoldable pub mark_detached : Assoc EbpfProgramMetadata → Assoc EbpfProgramMetadata
mark_detached [] = []
mark_detached ((name, meta) ∷ rest) =
    (name, record meta { is_attached = false; is_loaded = false }) ∷ mark_detached rest

abbrev pub bit : Bool → ℕ
bit b = if b then 1 else 0

module _ (os : Os) where
  unfoldable pub load_bpf_object : String → Exec EbpfLoader Status
  load_bpf_object path = do
    found ← ask (λ t. os.exists t path)
    unless_return found err_ebpf_probe_load_failed do
      opened ← call (λ t. os.bpf_open t path) (opened_object path)
      l ← get
      put (record l { bpf_obj = opened })
      elim opened [
        | none ↦ pure err_ebpf_probe_load_failed
        | some obj ↦ do
          err ← call (λ t. os.bpf_load t obj) (loaded_object obj)
          unless_do (not (is_neg err))
              (do
                record_event (closed_object obj)
                put (record l { bpf_obj = none })
                pure err_ebpf_probe_load_failed)
              do
                names ← ask (λ t. os.bpf_programs t obj)
                put (record l {
                  bpf_obj = some obj;
                  programs = note_programs path names l.programs;
                  is_loaded = true;
                })
                pure success
      ]

  -- What the two methods that attach a program do once the object is there.
  unfoldable pub attach_program : ℕ → String → Target → Exec EbpfLoader Status
  attach_program obj prog_name target = do
    found ← ask (λ t. os.bpf_has_program t obj prog_name)
    unless_return found err_ebpf_probe_load_failed do
      l ← get
      link ← call (λ t. os.bpf_attach t obj prog_name target) (attached prog_name target)
      elim link [
        | none ↦ pure err_ebpf_probe_load_failed
        | some k ↦ do
          put (record l {
            bpf_links = l.bpf_links ++ k ∷ [];
            programs = mark_attached prog_name l.programs;
          })
          pure success
      ]

  -- `!m_bpf_obj || !m_is_loaded`, and the rest with the object.
  abbrev if_loaded : EbpfLoader → (ℕ → Exec EbpfLoader Status) → Exec EbpfLoader Status
  if_loaded l rest m = elim l.bpf_obj [
    | none ↦ (err_ebpf_probe_load_failed, m)
    | some obj ↦ unless_return l.is_loaded err_ebpf_probe_load_failed (rest obj) m
  ]

  unfoldable pub attach_tracepoint : String → String → String → Exec EbpfLoader Status
  attach_tracepoint prog_name tp_category tp_name = do
    l ← get
    if_loaded l λ obj. attach_program obj prog_name (tracepoint tp_category tp_name)

  unfoldable pub attach_cgroup_connect4 : String → ℤ → Exec EbpfLoader Status
  attach_cgroup_connect4 prog_name cgroup_fd = do
    l ← get
    if_loaded l λ obj.
        unless_return (not (is_neg cgroup_fd)) err_ebpf_probe_load_failed
          (attach_program obj prog_name (cgroup cgroup_fd))

  -- -1 if there is no object, or no map of this name in it.
  unfoldable pub get_map_fd : String → Exec EbpfLoader ℤ
  get_map_fd map_name m = elim m.state.bpf_obj [
    | none ↦ (minus_one, m)
    | some obj ↦ (elim (os.bpf_map_fd m.trace obj map_name) [ none ↦ minus_one | some fd ↦ fd ], m)
  ]

  -- `bpf_map_update_elem` on a map's descriptor, and the status for its answer.
  unfoldable pub update_map : ℤ → ℕ → ℕ → Exec EbpfLoader Status
  update_map map_fd key value = unless_return (not (is_neg map_fd)) err_ebpf_probe_load_failed do
    err ← call (λ t. os.bpf_update t map_fd key value) (updated_map map_fd key value)
    unless_return (is_zero err) err_ebpf_probe_load_failed (pure success)

  -- The map of the syscall filter, or else that of the process monitor.
  unfoldable pub monitored_map_fd : Exec EbpfLoader ℤ
  monitored_map_fd = do
    map_fd ← get_map_fd "aegis_monitored_cgroups"
    unless_do (is_neg map_fd) (pure map_fd) (get_map_fd "aegis_monitored_cgroups_proc")

  unfoldable pub set_cgroup_monitored : ℕ → Bool → Exec EbpfLoader Status
  set_cgroup_monitored cgroup_id is_monitored = do
    map_fd ← monitored_map_fd
    update_map map_fd cgroup_id (bit is_monitored)

  unfoldable pub set_syscall_policy : ℕ → ℕ → Exec EbpfLoader Status
  set_syscall_policy syscall_nr is_blocked = do
    map_fd ← get_map_fd "aegis_syscall_policy"
    update_map map_fd syscall_nr is_blocked

  unfoldable pub set_blocked_ip : ℕ → Bool → Exec EbpfLoader Status
  set_blocked_ip ipv4_network_order is_blocked = do
    map_fd ← get_map_fd "aegis_blocked_ips"
    update_map map_fd ipv4_network_order (bit is_blocked)

  unfoldable pub destroy_links : List ℕ → Exec EbpfLoader (Unit {0})
  destroy_links [] = pure tt
  destroy_links (link ∷ links) = do record_event (destroyed_link link); destroy_links links

  -- `if (m_bpf_obj) bpf_object__close(m_bpf_obj);`
  unfoldable pub close_object : Option ℕ → Exec EbpfLoader (Unit {0})
  close_object none = pure tt
  close_object (some obj) = record_event (closed_object obj)

  -- Also what the destructor does. No link in the list is null.
  unfoldable pub detach_all : Exec EbpfLoader (Unit {0})
  detach_all = do
    l ← get
    destroy_links l.bpf_links
    close_object l.bpf_obj
    put (record {
      bpf_obj = none;
      bpf_links = [];
      programs = mark_detached l.programs;
      is_loaded = false;
    })
