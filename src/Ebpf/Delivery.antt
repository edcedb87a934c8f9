-- ===== src/Ebpf/Delivery.antt =====
-- What a poll hands to the callback.
use mathlib.Core.List.{append-nil, append_assoc}
use aegis_sandbox.Prelude.{
  ℕ, ◌≡◌, ap, sym, inl, inr, true, none, some, List, [], ◌∷◌, ◌++◌, arith, length, Option-cases,
}
use aegis_sandbox.Prelude.Int.{ℤ}
use aegis_sandbox.Ebpf.RingBuffer.{
  RingBufferReader, SecurityEventVariant, decode_event, dispatch_event, raw_sample_callback,
  consume_samples, poll,
}
use aegis_sandbox.Ebpf.Decoding.{sizes}

-- The events of the samples that decode, in order.
abbrev pub decoded : List (List ℕ) → List SecurityEventVariant
decoded [] = []
decoded (raw ∷ rest) = elim (decode_event raw) [ none ↦ decoded rest | some e ↦ e ∷ decoded rest ]

empty_sample : (raw : List ℕ) → length raw ≡ 0 → decode_event raw ≡ none
unfolding decode_event
empty_sample raw h = ground (arith, sizes)

raw_sample_callback_lem :
    (raw : List ℕ) (r : RingBufferReader)
    → r.has_callback ≡ true
    → raw_sample_callback raw r ≡ record r {
      received = elim (decode_event raw) [ none ↦ r.received | some e ↦ r.received ++ e ∷ [] ];
    }
unfolding raw_sample_callback dispatch_event
raw_sample_callback_lem raw r h = ground (arith, empty_sample raw)

-- A sample that decodes is one call of the callback.
pub callback-decoded :
    (raw : List ℕ) (e : SecurityEventVariant) (r : RingBufferReader)
    → r.has_callback ≡ true
    → decode_event raw ≡ some e
    → raw_sample_callback raw r ≡ record r { received = r.received ++ e ∷ [] }
callback-decoded raw e r h known = ground (arith, raw_sample_callback_lem raw r h, known)

consume_samples_lem :
    (samples : List (List ℕ)) (r : RingBufferReader)
    → r.has_callback ≡ true
    → consume_samples samples r ≡ record r { received = r.received ++ decoded samples }
unfolding consume_samples
consume_samples_lem [] r h = ap (λ l. record r { received = l }) (sym (append-nil r.received))
consume_samples_lem (raw ∷ rest) r h =
    rw (raw_sample_callback_lem raw r h) (elim (Option-cases (decode_event raw)) [
      | inl unknown ↦ ground (arith, unknown, consume_samples_lem rest r h)
      | inr (e, known) ↦ ground (
        arith,
        known,
        consume_samples_lem rest (record r { received = r.received ++ e ∷ [] }) h,
        append_assoc r.received (e ∷ []) (decoded rest),
      )
    ])

-- A poll of a reader with a callback and a ring buffer calls the callback once for each sample of a
-- known size, in the order of the samples, changes nothing else and returns libbpf's answer.
pub poll_delivers :
    (samples : List (List ℕ)) (err : ℤ) (b : ℕ) (r : RingBufferReader)
    → r.ring_buf ≡ some b
    → r.has_callback ≡ true
    → poll samples err r ≡ (record r { received = r.received ++ decoded samples }, err)
unfolding poll
poll_delivers samples err b r e h = ground (arith, e, consume_samples_lem samples r h)
