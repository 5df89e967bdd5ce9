-- ===== src/Backend/Delivery.antt =====
-- What becomes of the relay events.
use sentrazero.Base.{
  ℕ, ◌<◌, ◌≡◌, ◌⊎◌, inl, refl, sym, ap, ◌∙◌, Bool, true, false, List, [], ◌∷◌, ◌++◌, length,
  if◌then◌else◌, arith,
}
use sentrazero.Backend.Relay.{
  RelayBuffer, RelayStep, empty_buffer, buffers, ticks, receives, relay_batch_size,
  buffer_relay_event, flush_relay_events, relay_step, relay_run,
}

-- The events of the batches, in their order.
abbrev pub flushed : List (Bool × List ℕ) → List ℕ
flushed [] = []
flushed ((delivered, events) ∷ batches) = events ++ flushed batches

abbrev pub buffered : List RelayStep → List ℕ
buffered [] = []
buffered (buffers event ∷ steps) = event ∷ buffered steps
buffered (_ ∷ steps) = buffered steps

append_assoc : (xs ys zs : List ℕ) → (xs ++ ys) ++ zs ≡ xs ++ (ys ++ zs)
append_assoc [] ys zs = refl
append_assoc (x ∷ xs) ys zs = ap (λ t. x ∷ t) (append_assoc xs ys zs)

append_nil : (xs : List ℕ) → xs ++ [] ≡ xs
append_nil [] = refl
append_nil (x ∷ xs) = ap (λ t. x ∷ t) (append_nil xs)

flushed-append :
    (batches : List (Bool × List ℕ)) (delivered : Bool) (events : List ℕ)
    → flushed (batches ++ (delivered, events) ∷ []) ≡ flushed batches ++ events
flushed-append [] delivered events = append_nil events
flushed-append ((d, es) ∷ batches) delivered events =
    ap (λ t. es ++ t) (flushed-append batches delivered events)
    ∙ sym (append_assoc es (flushed batches) events)

-- What the buffer has seen.
abbrev pub seen_events : RelayBuffer → List ℕ
seen_events b = flushed b.batches ++ b.relay_pending

abbrev buffer_of : List ℕ → Bool → List (Bool × List ℕ) → RelayBuffer
buffer_of pending signalled batches = record {
  relay_pending = pending;
  signalled = signalled;
  batches = batches;
}

seen-flush_of :
    (delivered : Bool) (pending : List ℕ) (signalled : Bool) (batches : List (Bool × List ℕ))
    → seen_events (flush_relay_events delivered (buffer_of pending signalled batches))
      ≡ flushed batches ++ pending
unfolding flush_relay_events
seen-flush_of delivered [] signalled batches = refl
seen-flush_of delivered (event ∷ events) signalled batches =
    append_nil (flushed (batches ++ (delivered, event ∷ events) ∷ []))
    ∙ flushed-append batches delivered (event ∷ events)

seen-flush :
    (delivered : Bool) (b : RelayBuffer)
    → seen_events (flush_relay_events delivered b) ≡ seen_events b
seen-flush delivered b = seen-flush_of delivered b.relay_pending b.signalled b.batches

seen-receive :
    (delivered signalled : Bool) (b : RelayBuffer)
    → seen_events
        (if signalled then flush_relay_events delivered (record b { signalled = false }) else b)
      ≡ seen_events b
seen-receive delivered true b = seen-flush delivered (record b { signalled = false })
seen-receive delivered false b = refl

seen-run :
    (steps : List RelayStep) (b : RelayBuffer)
    → seen_events (relay_run steps b) ≡ seen_events b ++ buffered steps
unfolding relay_run relay_step buffer_relay_event
seen-run [] b = sym (append_nil (seen_events b))
seen-run (buffers event ∷ steps) b =
    seen-run steps (buffer_relay_event event b)
    ∙ ap (λ t. t ++ buffered steps)
        (sym (append_assoc (flushed b.batches) b.relay_pending (event ∷ [])))
    ∙ append_assoc (seen_events b) (event ∷ []) (buffered steps)
seen-run (ticks delivered ∷ steps) b =
    seen-run steps (flush_relay_events delivered b)
    ∙ ap (λ t. t ++ buffered steps) (seen-flush delivered b)
seen-run (receives delivered ∷ steps) b =
    seen-run steps (relay_step (receives delivered) b)
    ∙ ap (λ t. t ++ buffered steps) (seen-receive delivered b.signalled b)

-- A full batch is announced to the flusher.
abbrev IsAnnounced : RelayBuffer → Type 0
IsAnnounced b = (length b.relay_pending < relay_batch_size) ⊎ (b.signalled ≡ true)

flush-IsAnnounced :
    (delivered : Bool) (pending : List ℕ) (signalled : Bool) (batches : List (Bool × List ℕ))
    → IsAnnounced (flush_relay_events delivered (buffer_of pending signalled batches))
unfolding flush_relay_events
flush-IsAnnounced delivered [] signalled batches = inl (omega arith)
flush-IsAnnounced delivered (event ∷ events) signalled batches = inl (omega arith)

receive-IsAnnounced :
    (delivered signalled : Bool) (b : RelayBuffer)
    → IsAnnounced b
    → IsAnnounced
        (if signalled then flush_relay_events delivered (record b { signalled = false }) else b)
receive-IsAnnounced delivered true b v = flush-IsAnnounced delivered b.relay_pending false b.batches
receive-IsAnnounced delivered false b v = v

run-IsAnnounced :
    (steps : List RelayStep) (b : RelayBuffer) → IsAnnounced b → IsAnnounced (relay_run steps b)
unfolding relay_run relay_step buffer_relay_event
run-IsAnnounced [] b v = v
run-IsAnnounced (buffers event ∷ steps) b v =
    run-IsAnnounced steps (buffer_relay_event event b) (ground (arith, v))
run-IsAnnounced (ticks delivered ∷ steps) b v =
    run-IsAnnounced steps (flush_relay_events delivered b)
      (flush-IsAnnounced delivered b.relay_pending b.signalled b.batches)
run-IsAnnounced (receives delivered ∷ steps) b v =
    run-IsAnnounced steps (relay_step (receives delivered) b)
      (receive-IsAnnounced delivered b.signalled b v)

-- In every run of the relay from an empty buffer, each event stands in exactly one batch or waits, in
-- the order in which the events came; and where five or more wait, the flusher is signalled.
pub relay_run_lem :
    (steps : List RelayStep)
    → (flushed (relay_run steps empty_buffer).batches
          ++ (relay_run steps empty_buffer).relay_pending
        ≡ buffered steps)
      × ((length (relay_run steps empty_buffer).relay_pending < relay_batch_size)
          ⊎ ((relay_run steps empty_buffer).signalled ≡ true))
relay_run_lem steps =
    (seen-run steps empty_buffer, run-IsAnnounced steps empty_buffer (inl (omega arith)))
