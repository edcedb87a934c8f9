-- ===== src/Os.antt =====
-- What the program asks of the operating system, the C library and libbpf. None of it is code of
-- the repository: `Os` answers each call, as it may after all the calls before it, and a call is
-- recorded with its answer in the trace of the machine.
use aegis_sandbox.Prelude.{ℕ, String, Bool, ◌≡◌, Option, List, [], ◌∷◌, if◌then◌else◌}
use aegis_sandbox.Prelude.Int.{ℤ}

-- What a program is attached to: a tracepoint by its category and name, or a cgroup's descriptor.
pub data Target : Type 0 where
  tracepoint : String → String → Target
  cgroup : ℤ → Target

pub data Event : Type 0 where
  made_dirs : String → Bool → Event
  removed : String → Event
  removed_all : String → Event
  -- A text that reaches a file, and whether the file takes it.
  wrote_file : String → String → Bool → Event
  opened_dir : String → ℤ → Event
  closed : ℤ → Event
  opened_tun : ℤ → Event
  named_tap : ℤ → String → ℤ → Event
  forked : ℤ → Event
  slept_ms : ℕ → Event
  killed : ℤ → Event
  waited : ℤ → Event
  opened_socket : ℤ → Event
  connected : ℤ → String → ℤ → Event
  sent : ℤ → String → ℤ → Event
  received : ℤ → ℤ → Event
  opened_object : String → Option ℕ → Event
  loaded_object : ℕ → ℤ → Event
  closed_object : ℕ → Event
  attached : String → Target → Option ℕ → Event
  destroyed_link : ℕ → Event
  updated_map : ℤ → ℕ → ℕ → ℤ → Event

-- The newest event first.
abbrev pub Trace : Type 0
Trace = List Event

-- A negative number, `none` or `false` is a failure, as each call documents it.
pub record Os : Type 0 where
  pub create_directories : Trace → String → Bool
  pub exists : Trace → String → Bool
  -- `std::ofstream::is_open()`
  pub opens_file : Trace → String → Bool
  -- Whether a text is accepted when the stream writes it out.
  pub accepts : Trace → String → String → Bool
  -- The inode, if `stat` succeeds.
  pub stat : Trace → String → Option ℕ
  pub open_dir : Trace → String → ℤ
  pub open_tun : Trace → ℤ
  pub set_iff : Trace → ℤ → String → ℤ
  -- What the parent is told.
  pub fork : Trace → ℤ
  -- The high resolution clock, in nanoseconds.
  pub now : Trace → ℕ
  pub socket : Trace → ℤ
  pub connect : Trace → ℤ → String → ℤ
  pub write : Trace → ℤ → String → ℤ
  -- The count that `read` returns, and the bytes that wait; the caller's buffer takes those that fit.
  pub read : Trace → ℤ → ℤ × String
  -- libbpf: a handle of an opened object, the return code of its load, the names of its programs.
  pub bpf_open : Trace → String → Option ℕ
  pub bpf_load : Trace → ℕ → ℤ
  pub bpf_programs : Trace → ℕ → List String
  pub bpf_has_program : Trace → ℕ → String → Bool
  -- A link, if the attachment succeeds.
  pub bpf_attach : Trace → ℕ → String → Target → Option ℕ
  -- The descriptor of a map by its name, if the object has it.
  pub bpf_map_fd : Trace → ℕ → String → Option ℤ
  pub bpf_update : Trace → ℤ → ℕ → ℕ → ℤ

pub record Machine (S : Type 0) : Type 0 where
  pub state : S
  pub trace : Trace

-- A method of an object with state `S`: its result, and the machine that it leaves.
abbrev pub Exec : Type 0 → Type 0 → Type 0
Exec S A = Machine S → A × Machine S

module _ {S : Type 0} where
  abbrev pub pure : {A : Type 0} → A → Exec S A
  pure a m = (a, m)

  infixl 5 ◌>>=◌ ◌>>◌
  abbrev pub ◌>>=◌ : {A B : Type 0} → Exec S A → (A → Exec S B) → Exec S B
  ◌>>=◌ p f m = let (a, m') = p m in f a m'

  abbrev pub ◌>>◌ : {A B : Type 0} → Exec S A → Exec S B → Exec S B
  p >> q = p >>= λ _. q

  abbrev pub get : Exec S S
  get m = (m.state, m)

  abbrev pub put : S → Exec S (Unit {0})
  put s m = (tt, record m { state = s })

  abbrev pub record_event : Event → Exec S (Unit {0})
  record_event e m = (tt, record m { trace = e ∷ m.trace })

  -- A question that leaves no trace.
  abbrev pub ask : {A : Type 0} → (Trace → A) → Exec S A
  ask answer m = (answer m.trace, m)

  -- A call: its answer, which is recorded.
  abbrev pub call : {A : Type 0} → (Trace → A) → (A → Event) → Exec S A
  call answer event m = let a = answer m.trace in (a, record m { trace = event a ∷ m.trace })

  -- `if (!b) return a;` and the rest of the method.
  abbrev pub unless_return : {A : Type 0} → Bool → A → Exec S A → Exec S A
  unless_return b a rest m = if b then rest m else (a, m)

  -- `if (!b) { p; return a; }` and the rest of the method.
  abbrev pub unless_do : {A : Type 0} → Bool → Exec S A → Exec S A → Exec S A
  unless_do b p rest m = if b then rest m else p m

  -- `if (b) p;`
  abbrev pub when : Bool → Exec S (Unit {0}) → Exec S (Unit {0})
  when b p m = if b then p m else (tt, m)

-- The newest event of a trace.
abbrev pub Latest : Event → Trace → Type 0
Latest e [] = ⊥
Latest e (x ∷ t) = x ≡ e
