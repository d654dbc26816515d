-- ===== src/Webhooks/Swingmetric/Second.antt =====
-- Two shots of one second that src/webhooks/swingmetric/swingmetric.parser.ts parses.
use pureplay_analytics_inges.Prelude.{◌≡◌, refl, true, false, some, Text, ℤ}
use pureplay_analytics_inges.Platform.{Number, Platform}
use pureplay_analytics_inges.Domain.Json.{Members}
use pureplay_analytics_inges.Database.{Database, satisfies_checks}
use pureplay_analytics_inges.Ingestion.Repository.{UpsertResult, upsert_if_new}
use pureplay_analytics_inges.Ingestion.Repository.Upsert.{upsert_if_new-same_key}
use pureplay_analytics_inges.Webhooks.Swingmetric.{
  SwingmetricShot, SwingmetricPayload, time_bucket, parse_single_shot,
}

module _ {N : Type 0} ⦃num : Number N⦄ ⦃p : Platform⦄ where
  key-parse_single_shot :
      (ulid ulid' : Text) (raw raw' : Members N) (a b : SwingmetricShot N)
      (payload again : SwingmetricPayload N) (received received' : ℤ)
      → payload.player ≡ again.player
      → payload.device ≡ again.device
      → time_bucket a ≡ time_bucket b
      → (parse_single_shot ulid raw a payload received).idempotency_key
        ≡ (parse_single_shot ulid' raw' b again received').idempotency_key
  unfolding parse_single_shot
  key-parse_single_shot ulid ulid' raw raw' a b payload again received received' player device
        second =
      rw (player, device, second)

  -- Of two SwingMetric shots of one player, device and second of `ts_ms`, whatever else they
  -- hold, once an `upsertIfNew` of the first has returned, one of the second, if the table's
  -- checks accept it, answers that nothing was inserted, with the first's id, and changes no
  -- table.
  pub upsert_if_new-parse_single_shot :
      (ulid ulid' : Text) (raw raw' : Members N) (a b : SwingmetricShot N)
      (payload again : SwingmetricPayload N) (received received' now later : ℤ)
      (db db' : Database N) (r : UpsertResult)
      → payload.player ≡ again.player
      → payload.device ≡ again.device
      → time_bucket a ≡ time_bucket b
      → satisfies_checks (parse_single_shot ulid' raw' b again received') ≡ true
      → upsert_if_new (parse_single_shot ulid raw a payload received) now db ≡ some (r, db')
      → upsert_if_new (parse_single_shot ulid' raw' b again received') later db'
        ≡ some (record { inserted = false; canonical_shot_id = r.canonical_shot_id }, db')
  unfolding parse_single_shot
  upsert_if_new-parse_single_shot ulid ulid' raw raw' a b payload again received received' now later
        db db' r player device second ok stored =
      upsert_if_new-same_key (parse_single_shot ulid raw a payload received)
        (parse_single_shot ulid' raw' b again received') now later db db' r vendors
        (key-parse_single_shot ulid ulid' raw raw' a b payload again received received' player
          device second)
        ok stored
    where
      vendors :
          (parse_single_shot ulid raw a payload received).vendor
          ≡ (parse_single_shot ulid' raw' b again received').vendor
      vendors = refl
