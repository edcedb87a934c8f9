-- ===== src/Tests/Polling.antt =====
-- The reader's two threads in one order of their steps.
use aegis_sandbox.Prelude.{◌≡◌, ◌≢◌, refl, true, false, none, some, []}
use aegis_sandbox.Prelude.Int.{pos}
use aegis_sandbox.Ebpf.RingBuffer.{init, start_polling}
use aegis_sandbox.Ebpf.Polling.{
  absent, gone, stopping, System, created, owner_inits, owner_starts, owner_stops, thread_checks,
  inits, starts, stops, checks, Reaches, starting, next,
}
use aegis_sandbox.Ebpf.Interleavings.{reached_safe}
use aegis_sandbox.Ebpf.Stopping.{Inevitably, Stopped, stop_polling_returns}

-- The owner initialises the reader, starts the thread, which enters `poll`, and destroys the reader.
abbrev ready : System
ready = owner_inits (pos 9) true (some 3) created

abbrev within : System
within = thread_checks (owner_starts ready)

abbrev waiting : System
waiting = owner_stops true within

within_reached : Reaches within
unfolding owner_inits init owner_starts start_polling
within_reached =
    next (next (next starting (inits (pos 9) true (some 3) refl)) (starts refl)) (checks refl)

waiting_reached : Reaches waiting
unfolding owner_inits init owner_starts start_polling thread_checks
waiting_reached = next within_reached (stops true refl)

reached_safe_example :
    (within.thread ≢ absent → (within.freed ≡ []) × (within.reader.thread_joinable ≡ true))
    × (within.control ≡ gone
        → (within.thread ≡ absent)
          × (within.reader.thread_joinable ≡ false)
          × (within.reader.ring_buf ≡ none))
reached_safe_example = reached_safe within within_reached

waiting_control : waiting.control ≡ stopping true
unfolding owner_inits init owner_starts start_polling thread_checks owner_stops
waiting_control = refl

stop_polling_returns_example : Inevitably (Stopped true) waiting
stop_polling_returns_example = stop_polling_returns true waiting waiting_reached waiting_control
