-- ===== src/Webhooks/Routes.antt =====
-- The `receive` of src/webhooks/trackpro/trackpro.controller.ts, of
-- src/webhooks/proswing/proswing.controller.ts and of src/webhooks/swingmetric/swingmetric.controller.ts,
-- after the guard and the validation of the payload.
pub mod Again
pub mod Batch
use pureplay_analytics_inges.Prelude.{
  ℕ, ◌≤◌, ◌≡◌, refl, sym, ap, ◌∙◌, inl, inr, Bool, true, false, Option, none, some, List, any, Text,
  codes, ◌++◌, ℤ, leb, or_else, arith, Bool-cases, if◌then◌else◌,
}
use pureplay_analytics_inges.Platform.{Number, Platform}
use pureplay_analytics_inges.Domain.Json.{Members}
use pureplay_analytics_inges.Domain.Shot.{NormalisedShot}
use pureplay_analytics_inges.Ingestion.Repository.{has_excessive_clock_skew}
use pureplay_analytics_inges.Ingestion.Queue.{
  Queue, IsQueue, Result, ok, err, clock_skew_excessive, service_unavailable, enqueue,
  enqueue_batch, max_depth, job_of,
}
use pureplay_analytics_inges.Webhooks.Proswing.{ProswingCanonicalPayload, parse_proswing}
use pureplay_analytics_inges.Webhooks.Trackpro.{TrackproPayload, parse_trackpro}
use pureplay_analytics_inges.Webhooks.Swingmetric.{
  SwingmetricShot, SwingmetricPayload, parse_swingmetric,
}

-- What a request has beside its payload: the header for the correlation id, the UUID that stands for
-- a missing one, and the time of its receipt.
pub record Receipt : Type 0 where
  pub correlation_header : Option Text
  pub random_uuid : Text
  pub received_at_utc : ℤ

abbrev pub correlation_id_of : Receipt → Text
correlation_id_of receipt = or_else receipt.correlation_header receipt.random_uuid

-- The answer 202 with its correlation id, or the exception of the queue.
abbrev pub accepted_as : {A Q : Type 0} → Text → Result A × Q → Result Text × Q
accepted_as correlation_id (ok a, q) = (ok correlation_id, q)
accepted_as correlation_id (err e, q) = (err e, q)

module _ {N Q : Type 0} (queue : Queue N Q) (config : Option ℕ) where
  -- What the two routes of one shot do with it.
  unfoldable pub receive_shot : Receipt → NormalisedShot N → Q → Result Text × Q
  receive_shot receipt shot q =
      let correlation_id = correlation_id_of receipt in
      if has_excessive_clock_skew shot.captured_at_utc receipt.received_at_utc
      then (err clock_skew_excessive, q)
      else accepted_as correlation_id
          (enqueue queue config shot correlation_id receipt.received_at_utc q)

  -- The batch is refused as a whole if one of its shots is skewed.
  unfoldable pub receive_batch : Receipt → List (NormalisedShot N) → Q → Result Text × Q
  receive_batch receipt shots q =
      let correlation_id = correlation_id_of receipt in
      if any (λ s. has_excessive_clock_skew s.captured_at_utc receipt.received_at_utc) shots
      then (err clock_skew_excessive, q)
      else accepted_as correlation_id
          (enqueue_batch queue config shots correlation_id receipt.received_at_utc q)

module _ {N Q : Type 0} ⦃num : Number N⦄ ⦃p : Platform⦄ (queue : Queue N Q) (config : Option ℕ)
    (instant : Text → ℤ) where
  unfoldable pub receive_trackpro :
      Text → Members N → TrackproPayload N → Receipt → Q → Result Text × Q
  receive_trackpro ulid raw payload receipt q =
      receive_shot queue config receipt
        (parse_trackpro instant ulid raw payload receipt.received_at_utc) q

  unfoldable pub receive_proswing :
      Text → Members N → ProswingCanonicalPayload N → Receipt → Q → Result Text × Q
  receive_proswing ulid raw payload receipt q =
      receive_shot queue config receipt
        (parse_proswing instant ulid raw payload receipt.received_at_utc) q

module _ {N Q : Type 0} ⦃num : Number N⦄ ⦃p : Platform⦄ (queue : Queue N Q)
    (config : Option ℕ) where
  unfoldable pub receive_swingmetric :
      (ℕ → Text)
      → (SwingmetricShot N → Members N)
      → SwingmetricPayload N
      → Receipt
      → Q
      → Result Text × Q
  receive_swingmetric ulids raw payload receipt q =
      receive_batch queue config receipt
        (parse_swingmetric ulids raw payload receipt.received_at_utc) q
