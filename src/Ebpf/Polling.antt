-- ===== src/Ebpf/Polling.antt =====
-- src/ebpf/ring_buffer_reader.cpp: the polling thread beside the thread that owns the reader, as steps
-- that interleave. A step is what a thread does between two accesses to what they share.
use aegis_sandbox.Prelude.{
  ℕ, ◌≡◌, Bool, true, false, Option, none, some, List, [], ◌∷◌, if◌then◌else◌,
}
use aegis_sandbox.Prelude.Int.{ℤ}
use aegis_sandbox.Ebpf.RingBuffer.{RingBufferReader, ring_buffer_reader, init, poll, start_polling}

-- The polling thread: there is none, it is about to test `m_is_polling`, it is in `poll`, or its function
-- has returned.
pub data Phase : Type 0 where
  absent checking polling finished : Phase

-- The owner: between two calls, in the `join` of `stop_polling`, behind the `stop_polling` of the
-- destructor, or behind the destructor. The flag is whether the destructor called `stop_polling`.
pub data Control : Type 0 where
  idle freeing gone : Control
  stopping : Bool → Control

pub record System : Type 0 where
  pub reader : RingBufferReader
  pub thread : Phase
  pub control : Control
  -- The managers that `ring_buffer__free` was called with.
  pub freed : List ℕ

abbrev pub created : System
created = record { reader = ring_buffer_reader; thread = absent; control = idle; freed = [] }

-- Where the owner goes on behind `stop_polling`.
abbrev pub after_stop : Bool → Control
after_stop true = freeing
after_stop false = idle

unfoldable pub owner_inits : ℤ → Bool → Option ℕ → System → System
owner_inits map_fd callback manager s = record s {
  reader = (init map_fd callback manager s.reader).0;
}

unfoldable pub owner_polls : List (List ℕ) → ℤ → System → System
owner_polls samples err s = record s { reader = (poll samples err s.reader).0 }

-- `start_polling` makes the thread when it sets the flag.
unfoldable pub owner_starts : System → System
owner_starts s =
    let r = (start_polling s.reader).0 in
    record s {
      reader = r;
      thread =
          if s.reader.is_polling then s.thread else if r.is_polling then checking else s.thread;
    }

-- `m_is_polling.exchange(false)` and the test of `joinable()`.
unfoldable pub owner_stops : Bool → System → System
owner_stops destroys s =
    if s.reader.is_polling
    then record s {
      reader = record (s.reader) { is_polling = false };
      control = if s.reader.thread_joinable then stopping destroys else after_stop destroys;
    }
    else record s { control = after_stop destroys }

-- `join`, which returns when the thread has finished.
unfoldable pub owner_joins : Bool → System → System
owner_joins destroys s = record s {
  reader = record (s.reader) { thread_joinable = false };
  thread = absent;
  control = after_stop destroys;
}

abbrev free_manager : Option ℕ → List ℕ → List ℕ
free_manager none freed = freed
free_manager (some b) freed = b ∷ freed

-- The rest of the destructor.
unfoldable pub owner_frees : System → System
owner_frees s = record s {
  reader = record (s.reader) { ring_buf = none };
  control = gone;
  freed = free_manager s.reader.ring_buf s.freed;
}

unfoldable pub thread_checks : System → System
thread_checks s = record s { thread = if s.reader.is_polling then polling else finished }

-- The 50 milliseconds behind a failed poll change nothing.
unfoldable pub thread_polls : List (List ℕ) → ℤ → System → System
thread_polls samples err s = record s { reader = (poll samples err s.reader).0; thread = checking }

pub data Step : System → System → Type 0 where
  inits :
      {s : System} (map_fd : ℤ) (callback : Bool) (manager : Option ℕ)
      → s.control ≡ idle
      → Step s (owner_inits map_fd callback manager s)
  polls :
      {s : System} (samples : List (List ℕ)) (err : ℤ)
      → s.control ≡ idle
      → Step s (owner_polls samples err s)
  starts : {s : System} → s.control ≡ idle → Step s (owner_starts s)
  stops : {s : System} (destroys : Bool) → s.control ≡ idle → Step s (owner_stops destroys s)
  joins :
      {s : System} (destroys : Bool)
      → s.control ≡ stopping destroys
      → s.thread ≡ finished
      → Step s (owner_joins destroys s)
  frees : {s : System} → s.control ≡ freeing → Step s (owner_frees s)
  checks : {s : System} → s.thread ≡ checking → Step s (thread_checks s)
  delivers :
      {s : System} (samples : List (List ℕ)) (err : ℤ)
      → s.thread ≡ polling
      → Step s (thread_polls samples err s)

-- What the two threads can come to, in every order of their steps.
pub data Reaches : System → Type 0 where
  starting : Reaches created
  next : {s n : System} → Reaches s → Step s n → Reaches n
