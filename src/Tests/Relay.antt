-- ===== src/Tests/Relay.antt =====
-- Events of the relay, and an answer to a completion.
use sentrazero.Base.{◌≡◌, ◌⊎◌, ◌<◌, refl, true, false, not, [], ◌∷◌, List, length, ◌++◌}
use sentrazero.Backend.Relay.{
  RelayStep, buffers, ticks, receives, relay_run, empty_buffer, relay_batch_size,
}
use sentrazero.Backend.Calls.{HttpAnswer, replied, CompleteBody, complete_job, is_retryable}
use sentrazero.Backend.Delivery.{flushed, buffered, relay_run_lem}
use sentrazero.Backend.Completion.{is_final, complete_job_lem}

abbrev steps : List RelayStep
steps =
    buffers 1
    ∷ buffers 2
    ∷ ticks true
    ∷ buffers 3
    ∷ buffers 4
    ∷ buffers 5
    ∷ buffers 6
    ∷ buffers 7
    ∷ receives false
    ∷ buffers 8
    ∷ []

relayed :
    (relay_run steps empty_buffer).batches
    ≡ (true, 1 ∷ 2 ∷ []) ∷ (false, 3 ∷ 4 ∷ 5 ∷ 6 ∷ 7 ∷ []) ∷ []
unfolding relay_run
relayed = refl

relay_run_lem_example :
    (flushed (relay_run steps empty_buffer).batches ++ (relay_run steps empty_buffer).relay_pending
      ≡ buffered steps)
    × ((length (relay_run steps empty_buffer).relay_pending < relay_batch_size)
        ⊎ ((relay_run steps empty_buffer).signalled ≡ true))
relay_run_lem_example = relay_run_lem steps

abbrev lease_lost : HttpAnswer CompleteBody
lease_lost =
    replied 409 (record { is_ok = false; idempotent = false; error = "lease expired"; text = "" })

complete_job_lem_example :
    (is_retryable (complete_job lease_lost) ≡ not (is_final lease_lost))
    × ((complete_job lease_lost).is_lease_expired ≡ false)
    × ((complete_job lease_lost).is_concurrent_mod ≡ false)
complete_job_lem_example = complete_job_lem lease_lost
