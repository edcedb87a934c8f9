-- ===== src/Ebpf/Interleavings.antt =====
-- What holds of the reader's two threads in every order of their steps.
use aegis_sandbox.Prelude.{
  ℕ, ◌≡◌, ◌≢◌, refl, ◌⊎◌, inl, inr, ◌∙◌, Bool, true, false, not, ◌&&◌, Option, none, List, [], ◌∷◌,
  arith, Option-cases, Bool-cases,
}
use aegis_sandbox.Prelude.Int.{ℤ}
use aegis_sandbox.Ebpf.RingBuffer.{
  RingBufferReader, init, raw_sample_callback, dispatch_event, decode_event, consume_samples, poll,
  start_polling,
}
use aegis_sandbox.Ebpf.Polling.{
  Phase, absent, checking, polling, finished, Control, idle, freeing, gone, stopping, System,
  after_stop, owner_inits, owner_polls, owner_starts, owner_stops, owner_joins, owner_frees,
  thread_checks, thread_polls, Step, inits, polls, starts, stops, joins, frees, checks, delivers,
  Reaches, starting, next,
}

-- The flags of a reader that the threads act on.
abbrev pub flags : RingBufferReader → Bool × Bool
flags r = (r.is_polling, r.thread_joinable)

raw_sample_callback-flags :
    (raw : List ℕ) (r : RingBufferReader) → flags (raw_sample_callback raw r) ≡ flags r
unfolding raw_sample_callback dispatch_event
raw_sample_callback-flags raw r = elim (Option-cases (decode_event raw)) [
  | inl unknown ↦ ground (arith, unknown)
  | inr (e, known) ↦ ground (arith, known)
]

consume_samples-flags :
    (samples : List (List ℕ)) (r : RingBufferReader) → flags (consume_samples samples r) ≡ flags r
unfolding consume_samples
consume_samples-flags [] r = refl
consume_samples-flags (raw ∷ rest) r =
    consume_samples-flags rest (raw_sample_callback raw r) ∙ raw_sample_callback-flags raw r

pub poll-flags :
    (samples : List (List ℕ)) (err : ℤ) (r : RingBufferReader)
    → flags (poll samples err r).0 ≡ flags r
unfolding poll
poll-flags samples err r = elim (Option-cases r.ring_buf) [
  | inl missing ↦ rw (poll, missing) refl
  | inr (b, found) ↦ rw (poll, found) (consume_samples-flags samples r)
]

init-flags :
    (map_fd : ℤ) (callback : Bool) (manager : Option ℕ) (r : RingBufferReader)
    → flags (init map_fd callback manager r).0 ≡ flags r
unfolding init
init-flags map_fd callback manager r = ground arith

-- Which phases of the thread and flags of the reader go with what the owner is doing.
abbrev agrees : Control → Phase → Bool × Bool → Bool
agrees idle absent (p, j) = not p && not j
agrees idle checking (p, j) = p && j
agrees idle polling (p, j) = p && j
agrees idle finished f = false
agrees (stopping d) absent f = false
agrees (stopping d) checking (p, j) = not p && j
agrees (stopping d) polling (p, j) = not p && j
agrees (stopping d) finished (p, j) = not p && j
agrees freeing absent (p, j) = not p && not j
agrees freeing checking f = false
agrees freeing polling f = false
agrees freeing finished f = false
agrees gone absent (p, j) = not p && not j
agrees gone checking f = false
agrees gone polling f = false
agrees gone finished f = false

abbrev pub Agrees : System → Type 0
Agrees s = agrees s.control s.thread (flags s.reader) ≡ true

keeps :
    (s n : System)
    → n.control ≡ s.control
    → n.thread ≡ s.thread
    → flags n.reader ≡ flags s.reader
    → Agrees s
    → Agrees n
keeps s n c t f a = rw (c, t, f) a

start_polling_lem :
    (r : RingBufferReader)
    → ((start_polling r).0 ≡ r)
      ⊎ ((r.is_polling ≡ false) × (flags (start_polling r).0 ≡ (true, true)))
unfolding start_polling
start_polling_lem r = elim (Option-cases r.ring_buf) [
  | inl missing ↦ inl (ground (arith, missing))
  | inr (b, found) ↦ elim (Bool-cases r.is_polling) [
    | inl busy ↦ inl (ground (arith, found, busy))
    | inr free ↦ inr (free, ground (arith, found, free))
  ]
]

starts_Agrees : (s : System) → s.control ≡ idle → Agrees s → Agrees (owner_starts s)
unfolding owner_starts
starts_Agrees s i a = elim (start_polling_lem s.reader) [
  | inl same ↦ elim (Bool-cases s.reader.is_polling) [
    | inl busy ↦ ground (arith, same, i, a, busy)
    | inr free ↦ ground (arith, same, i, a, free)
  ]
  | inr (free, began) ↦ ground (arith, free, began, i, a)
]

stops_Agrees : (d : Bool) (s : System) → s.control ≡ idle → Agrees s → Agrees (owner_stops d s)
unfolding owner_stops
stops_Agrees d s i a = ground (arith, i, a)

joins_Agrees :
    (d : Bool) (s : System)
    → s.control ≡ stopping d
    → s.thread ≡ finished
    → Agrees s
    → Agrees (owner_joins d s)
unfolding owner_joins
joins_Agrees d s i f a = ground (arith, i, f, a)

frees_Agrees : (s : System) → s.control ≡ freeing → Agrees s → Agrees (owner_frees s)
unfolding owner_frees
frees_Agrees s i a = ground (arith, i, a)

checks_Agrees : (s : System) → s.thread ≡ checking → Agrees s → Agrees (thread_checks s)
unfolding thread_checks
checks_Agrees s t a = ground (arith, t, a)

delivers_Agrees :
    (samples : List (List ℕ)) (err : ℤ) (s : System)
    → s.thread ≡ polling
    → Agrees s
    → Agrees (thread_polls samples err s)
unfolding thread_polls
delivers_Agrees samples err s t a = ground (arith, t, a, poll-flags samples err s.reader)

Step-Agrees : (s n : System) → Step s n → Agrees s → Agrees n
unfolding owner_inits owner_polls
Step-Agrees s n (inits fd callback manager i) a =
    keeps s n refl refl (init-flags fd callback manager s.reader) a
Step-Agrees s n (polls samples err i) a = keeps s n refl refl (poll-flags samples err s.reader) a
Step-Agrees s n (starts i) a = starts_Agrees s i a
Step-Agrees s n (stops d i) a = stops_Agrees d s i a
Step-Agrees s n (joins d i f) a = joins_Agrees d s i f a
Step-Agrees s n (frees i) a = frees_Agrees s i a
Step-Agrees s n (checks t) a = checks_Agrees s t a
Step-Agrees s n (delivers samples err t) a = delivers_Agrees samples err s t a

pub reached_Agrees : (s : System) → Reaches s → Agrees s
reached_Agrees s starting = refl
reached_Agrees s (next {s = m} r d) = Step-Agrees m s d (reached_Agrees m r)

-- Behind the destructor there is no ring buffer, and before its end none was freed.
abbrev Ends : System → Type 0
Ends s = (s.control ≡ gone → s.reader.ring_buf ≡ none) × (s.control ≢ gone → s.freed ≡ [])

not_gone : (c d : Control) → c ≡ d → d ≢ gone → c ≢ gone
not_gone c d e h g = ground (arith, e, g, h)

-- A step of an owner who is not behind the destructor, to no such place, that frees nothing.
stays : (s n : System) → n.control ≢ gone → s.control ≢ gone → n.freed ≡ s.freed → Ends s → Ends n
stays s n h k f e = (λ g. absurd (h g), λ g. f ∙ e.1 k)

thread_there : (s : System) → Agrees s → s.thread ≢ absent → s.control ≢ gone
thread_there s a t g = ground (arith, a, t, g)

after_stop_there : (d : Bool) → after_stop d ≢ gone
after_stop_there true e = ground arith
after_stop_there false e = ground arith

idle_there : (s : System) → s.control ≡ idle → s.control ≢ gone
idle_there s i = not_gone s.control idle i (λ g. ground arith)

stops_there : (d : Bool) (s : System) → (owner_stops d s).control ≢ gone
unfolding owner_stops
stops_there d s g = ground (arith, after_stop_there d, g)

stops_freed : (d : Bool) (s : System) → (owner_stops d s).freed ≡ s.freed
unfolding owner_stops
stops_freed d s = ground arith

Step-Ends : (s n : System) → Step s n → Agrees s → Ends s → Ends n
unfolding owner_inits owner_polls owner_starts owner_stops owner_joins owner_frees thread_checks
    thread_polls
Step-Ends s n (inits fd callback manager i) a e = stays s n (idle_there s i) (idle_there s i) refl e
Step-Ends s n (polls samples err i) a e = stays s n (idle_there s i) (idle_there s i) refl e
Step-Ends s n (starts i) a e = stays s n (idle_there s i) (idle_there s i) refl e
Step-Ends s n (stops d i) a e = stays s n (stops_there d s) (idle_there s i) (stops_freed d s) e
Step-Ends s n (joins d i f) a e =
    stays s n (after_stop_there d) (not_gone s.control (stopping d) i (λ g. ground arith)) refl e
Step-Ends s n (frees i) a e = (λ g. refl, λ g. absurd (g refl))
Step-Ends s n (checks t) a e =
    let there = thread_there s a (λ g. ground (arith, t, g)) in stays s n there there refl e
Step-Ends s n (delivers samples err t) a e =
    let there = thread_there s a (λ g. ground (arith, t, g)) in stays s n there there refl e

reached_Ends : (s : System) → Reaches s → Ends s
reached_Ends s starting = (λ g. ground arith, λ g. refl)
reached_Ends s (next {s = m} r d) = Step-Ends m s d (reached_Agrees m r) (reached_Ends m r)

-- In every order of the steps of the two threads: while there is a polling thread the destructor has
-- freed nothing, and the thread can be joined; behind the destructor there is neither a thread
-- nor a ring buffer.
pub reached_safe :
    (s : System)
    → Reaches s
    → (s.thread ≢ absent → (s.freed ≡ []) × (s.reader.thread_joinable ≡ true))
      × (s.control ≡ gone
          → (s.thread ≡ absent) × (s.reader.thread_joinable ≡ false) × (s.reader.ring_buf ≡ none))
reached_safe s r =
    let a : Agrees s = reached_Agrees s r in
    let e : Ends s = reached_Ends s r in
    (
      λ t. (e.1 (thread_there s a t), ground (arith, a, t)),
      λ g. (ground (arith, a, g), ground (arith, a, g), e.0 g),
    )
