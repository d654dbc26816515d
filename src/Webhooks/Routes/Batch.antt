-- ===== src/Webhooks/Routes/Batch.antt =====
-- src/webhooks/swingmetric/swingmetric.controller.ts: a batch is taken or refused as a whole.
use pureplay_analytics_inges.Prelude.{
  ℕ, ◌+◌, ◌≤◌, ◌<◌, ◌≡◌, true, false, Option, List, any, All, Text, length,
}
use pureplay_analytics_inges.Platform.{Platform}
use pureplay_analytics_inges.Domain.Shot.{NormalisedShot}
use pureplay_analytics_inges.Ingestion.Repository.{has_excessive_clock_skew}
use pureplay_analytics_inges.Ingestion.Queue.{
  Queue, Result, ok, err, clock_skew_excessive, service_unavailable, max_depth,
}
use pureplay_analytics_inges.Webhooks.Routes.{Receipt, correlation_id_of}

-- What the route does with the shots of a batch: it takes them all, or refuses the batch and leaves
-- the queue as it was.
pub data IsReceived {N Q : Type 0} (queue : Queue N Q) (config : Option ℕ) (receipt : Receipt)
    (shots : List (NormalisedShot N)) (q : Q) (r : Result Text × Q) : Type 0 where
  taken :
      All (λ s. has_excessive_clock_skew s.captured_at_utc receipt.received_at_utc ≡ false) shots
      → queue.get_waiting_count q + length shots ≤ max_depth config
      → r.0 ≡ ok (correlation_id_of receipt)
      → queue.get_waiting_count r.1 ≤ max_depth config
      → All (λ s. queue.has_job s.idempotency_key r.1 ≡ true) shots
      → IsReceived queue config receipt shots q r
  skewed :
      any (λ s. has_excessive_clock_skew s.captured_at_utc receipt.received_at_utc) shots ≡ true
      → r ≡ (err clock_skew_excessive, q)
      → IsReceived queue config receipt shots q r
  full :
      max_depth config < queue.get_waiting_count q + length shots
      → r ≡ (err (service_unavailable 30), q)
      → IsReceived queue config receipt shots q r
