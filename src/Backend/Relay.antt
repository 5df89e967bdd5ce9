-- ===== src/Backend/Relay.antt =====
-- The buffer of relay events: bufferRelayEvent, relayFlusher and flushRelayEvents.
use sentrazero.Base.{ℕ, Bool, true, false, List, [], ◌∷◌, ◌++◌, length, leb, if◌then◌else◌}

abbrev pub relay_batch_size : ℕ
relay_batch_size = 5

-- An event is a number. `signalled` is the one slot of `relayCh`; a batch has the mark of its
-- delivery, and the batches stand in the order of their flushes.
pub record RelayBuffer : Type 0 where
  pub relay_pending : List ℕ
  pub signalled : Bool
  pub batches : List (Bool × List ℕ)

abbrev pub empty_buffer : RelayBuffer
empty_buffer = record { relay_pending = []; signalled = false; batches = [] }

unfoldable pub buffer_relay_event : ℕ → RelayBuffer → RelayBuffer
buffer_relay_event event b =
    let pending = b.relay_pending ++ event ∷ [] in
    record b {
      relay_pending = pending;
      signalled = if leb relay_batch_size (length pending) then true else b.signalled;
    }

-- `delivered` says whether the backend answers with a status below 300.
unfoldable pub flush_relay_events : Bool → RelayBuffer → RelayBuffer
flush_relay_events delivered b = elim b.relay_pending [
  | [] ↦ b
  | event ∷ events ↦ record b {
    relay_pending = [];
    batches = b.batches ++ (delivered, event ∷ events) ∷ [];
  }
]

-- A step of the flusher on its ticker or on the signal, which it takes, or a new event.
pub data RelayStep : Type 0 where
  buffers : ℕ → RelayStep
  ticks receives : Bool → RelayStep

unfoldable pub relay_step : RelayStep → RelayBuffer → RelayBuffer
unfolding buffer_relay_event flush_relay_events
relay_step (buffers event) b = buffer_relay_event event b
relay_step (ticks delivered) b = flush_relay_events delivered b
relay_step (receives delivered) b =
    if b.signalled then flush_relay_events delivered (record b { signalled = false }) else b

unfoldable pub relay_run : List RelayStep → RelayBuffer → RelayBuffer
unfolding relay_step
relay_run [] b = b
relay_run (step ∷ steps) b = relay_run steps (relay_step step b)
