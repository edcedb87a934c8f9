-- ===== src/Ebpf/Resources.antt =====
-- The links and objects of libbpf that a loader holds: what any history of its methods has made is
-- released exactly once or still held.
use aegis_sandbox.Prelude.{
  ℕ, ◌+◌, ◌≡◌, refl, String, Bool, true, Option, none, some, List, [], ◌∷◌, ◌++◌, arith, ◌==◌,
  if◌then◌else◌, inl, inr, Option-cases,
}
use aegis_sandbox.Prelude.Int.{ℤ}
use aegis_sandbox.Os.{
  Os, Target, tracepoint, cgroup, Event, Trace, Machine, opened_object, closed_object, attached,
  destroyed_link,
}
use aegis_sandbox.Ebpf.Loader.{
  EbpfLoader, ebpf_loader, load_bpf_object, attach_program, attach_tracepoint,
  attach_cgroup_connect4, get_map_fd, monitored_map_fd, update_map, set_cgroup_monitored,
  set_syscall_policy, set_blocked_ip, destroy_links, close_object, detach_all, bit,
}

pub data Command : Type 0 where
  loads : String → Command
  attaches_tracepoint : String → String → String → Command
  attaches_connect4 : String → ℤ → Command
  monitors : ℕ → Bool → Command
  sets_syscall : ℕ → ℕ → Command
  blocks_ip : ℕ → Bool → Command
  detaches : Command

abbrev pub one : ℕ → ℕ → ℕ
one n k = if k == n then 1 else 0

abbrev pub one_of : ℕ → Option ℕ → ℕ
one_of n none = 0
one_of n (some k) = one n k

pub makes_link : ℕ → Event → ℕ
makes_link n (attached prog target link) = one_of n link
makes_link n _ = 0

pub drops_link : ℕ → Event → ℕ
drops_link n (destroyed_link k) = one n k
drops_link n _ = 0

unfoldable pub opens_object : ℕ → Event → ℕ
opens_object n (opened_object path obj) = one_of n obj
opens_object n _ = 0

unfoldable pub closes_object : ℕ → Event → ℕ
closes_object n (closed_object k) = one n k
closes_object n _ = 0

-- How often a trace does it.
unfoldable pub total : (Event → ℕ) → Trace → ℕ
total f [] = 0
total f (e ∷ t) = f e + total f t

-- How often a list of links has it.
pub links : ℕ → List ℕ → ℕ
links n [] = 0
links n (k ∷ ks) = one n k + links n ks

links-append : (n : ℕ) (ks : List ℕ) (k : ℕ) → links n (ks ++ k ∷ []) ≡ links n ks + one n k
unfolding links
links-append n [] k = omega arith
links-append n (j ∷ ks) k = omega (arith, links-append n ks k)

abbrev pub LinksAccounted : ℕ → Machine EbpfLoader → Type 0
LinksAccounted n m =
    total (makes_link n) m.trace ≡ total (drops_link n) m.trace + links n m.state.bpf_links

abbrev pub ObjectsAccounted : ℕ → Machine EbpfLoader → Type 0
ObjectsAccounted n m =
    total (opens_object n) m.trace ≡ total (closes_object n) m.trace + one_of n m.state.bpf_obj

module _ (os : Os) where
  unfoldable pub step : Command → Machine EbpfLoader → Machine EbpfLoader
  step (loads path) m = (load_bpf_object os path m).1
  step (attaches_tracepoint p c t) m = (attach_tracepoint os p c t m).1
  step (attaches_connect4 p fd) m = (attach_cgroup_connect4 os p fd m).1
  step (monitors id b) m = (set_cgroup_monitored os id b m).1
  step (sets_syscall nr b) m = (set_syscall_policy os nr b m).1
  step (blocks_ip ip b) m = (set_blocked_ip os ip b m).1
  step detaches m = (detach_all os m).1

  unfoldable pub run : List Command → Machine EbpfLoader → Machine EbpfLoader
  unfolding step
  run [] m = m
  run (c ∷ cs) m = run cs (step c m)

  -- A new object is loaded only where none is held.
  abbrev pub Allowed : Command → Machine EbpfLoader → Type 0
  Allowed (loads path) m = m.state.bpf_obj ≡ none
  Allowed _ m = Unit

  abbrev pub AllAllowed : List Command → Machine EbpfLoader → Type 0
  AllAllowed [] m = Unit
  AllAllowed (c ∷ cs) m = Allowed c m × AllAllowed cs (step c m)

  module _ (n : ℕ) where
    abbrev Accounted : Machine EbpfLoader → Type 0
    Accounted m = LinksAccounted n m × ObjectsAccounted n m

    attach_program_accounts :
        (obj : ℕ) (prog : String) (target : Target) (m : Machine EbpfLoader)
        → Accounted m
        → Accounted (attach_program os obj prog target m).1
    unfolding attach_program total makes_link drops_link opens_object closes_object
    attach_program_accounts obj prog target m b =
        elim (Option-cases (os.bpf_attach m.trace obj prog target)) [
          | inl failed ↦ ground arith
          | inr (k, made) ↦ ground (arith, links-append n m.state.bpf_links k)
        ]

    update_map_accounts :
        (fd : ℤ) (key value : ℕ) (m : Machine EbpfLoader)
        → Accounted m
        → Accounted (update_map os fd key value m).1
    unfolding update_map total makes_link drops_link opens_object closes_object
    update_map_accounts fd key value m b = ground arith

    get_map_fd-machine : (name : String) (m : Machine EbpfLoader) → (get_map_fd os name m).1 ≡ m
    unfolding get_map_fd
    get_map_fd-machine name m = ground arith

    monitored_map_fd-machine : (m : Machine EbpfLoader) → (monitored_map_fd os m).1 ≡ m
    unfolding monitored_map_fd get_map_fd
    monitored_map_fd-machine m = ground arith

    load_bpf_object_accounts :
        (path : String) (m : Machine EbpfLoader)
        → m.state.bpf_obj ≡ none
        → Accounted m
        → Accounted (load_bpf_object os path m).1
    unfolding load_bpf_object total makes_link drops_link opens_object closes_object
    load_bpf_object_accounts path m none_held b = ground arith

    destroy_links_accounts :
        (ks : List ℕ) (m : Machine EbpfLoader)
        → (total (makes_link n) (destroy_links os ks m).1.trace ≡ total (makes_link n) m.trace)
          × (total (drops_link n) (destroy_links os ks m).1.trace
              ≡ total (drops_link n) m.trace + links n ks)
          × (total (opens_object n) (destroy_links os ks m).1.trace
              ≡ total (opens_object n) m.trace)
          × (total (closes_object n) (destroy_links os ks m).1.trace
              ≡ total (closes_object n) m.trace)
          × ((destroy_links os ks m).1.state ≡ m.state)
    unfolding destroy_links total makes_link drops_link opens_object closes_object links
    destroy_links_accounts [] m = (refl, omega arith, refl, refl, refl)
    destroy_links_accounts (k ∷ ks) m =
        let ih = destroy_links_accounts ks (record m { trace = destroyed_link k ∷ m.trace }) in
        (ground arith, ground arith, ground arith, ground arith, ground arith)

    detach_all_accounts : (m : Machine EbpfLoader) → Accounted m → Accounted (detach_all os m).1
    unfolding detach_all close_object total makes_link drops_link opens_object closes_object links
    detach_all_accounts m b = ground (arith, destroy_links_accounts m.state.bpf_links m)

    step_accounts :
        (c : Command) (m : Machine EbpfLoader) → Allowed c m → Accounted m → Accounted (step c m)
    unfolding step attach_tracepoint attach_cgroup_connect4 set_cgroup_monitored set_syscall_policy
        set_blocked_ip
    step_accounts (loads path) m a b = load_bpf_object_accounts path m a b
    step_accounts (attaches_tracepoint p c t) m a b = elim (Option-cases m.state.bpf_obj) [
      | inl absent ↦ ground arith
      | inr (obj, held) ↦ ground (arith, attach_program_accounts obj p (tracepoint c t) m b)
    ]
    step_accounts (attaches_connect4 p fd) m a b = elim (Option-cases m.state.bpf_obj) [
      | inl absent ↦ ground arith
      | inr (obj, held) ↦ ground (arith, attach_program_accounts obj p (cgroup fd) m b)
    ]
    step_accounts (monitors id v) m a b =
        update_map_accounts (monitored_map_fd os m).0 id (bit v) (monitored_map_fd os m).1
          (rw (monitored_map_fd-machine m) b)
    step_accounts (sets_syscall nr v) m a b =
        update_map_accounts (get_map_fd os "aegis_syscall_policy" m).0 nr v
          (get_map_fd os "aegis_syscall_policy" m).1 (rw (get_map_fd-machine _ m) b)
    step_accounts (blocks_ip ip v) m a b =
        update_map_accounts (get_map_fd os "aegis_blocked_ips" m).0 ip (bit v)
          (get_map_fd os "aegis_blocked_ips" m).1 (rw (get_map_fd-machine _ m) b)
    step_accounts detaches m a b = detach_all_accounts m b

    run_accounts :
        (cs : List Command) (m : Machine EbpfLoader)
        → AllAllowed cs m
        → Accounted m
        → Accounted (run cs m)
    unfolding run
    run_accounts [] m a b = b
    run_accounts (c ∷ cs) m a b = run_accounts cs (step c m) a.1 (step_accounts c m a.0 b)

    -- From the constructor on, whatever the calls, as long as no object is loaded while one is held:
    -- after `detach_all`, which the destructor calls too, each link has been destroyed as often as it
    -- was made, and each object closed as often as it was opened.
    pub detach_all_releases :
        (cs : List Command)
        → AllAllowed cs (record { state = ebpf_loader; trace = [] })
        → let t = (detach_all os (run cs (record { state = ebpf_loader; trace = [] }))).1.trace in
          (total (makes_link n) t ≡ total (drops_link n) t)
          × (total (opens_object n) t ≡ total (closes_object n) t)
    unfolding detach_all close_object total closes_object opens_object makes_link drops_link links
    detach_all_releases cs a =
        let m : Machine EbpfLoader = run cs (record { state = ebpf_loader; trace = [] }) in
        let b : Accounted m = run_accounts cs _ a (refl, refl) in
        ground (arith, destroy_links_accounts m.state.bpf_links m)

    -- A load while the object `n` is held loses it: the new object takes its place, and the trace
    -- opens `n` once more than it closes it or the loader holds it.
    load_bpf_object_leaks :
        (path : String) (m : Machine EbpfLoader)
        → m.state.bpf_obj ≡ some n
        → os.exists m.trace path ≡ true
        → ObjectsAccounted n m
        → let m' = (load_bpf_object os path m).1 in
          total (opens_object n) m'.trace
          ≡ total (closes_object n) m'.trace + one_of n m'.state.bpf_obj + 1
    unfolding load_bpf_object total opens_object closes_object
    load_bpf_object_leaks path m held there b = ground arith
