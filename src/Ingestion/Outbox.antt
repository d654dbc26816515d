-- ===== src/Ingestion/Outbox.antt =====
-- src/ingestion/outbox-publisher.service.ts
pub mod Delivery
use pureplay_analytics_inges.Prelude.{
  ℕ, Bool, true, false, not, Option, none, some, List, [], ◌∷◌, ◌++◌, Text, text_eq, ◌==◌, keep,
  any, take, if◌then◌else◌,
}
use pureplay_analytics_inges.Domain.Json.{end}
use pureplay_analytics_inges.Domain.Shot.{NormalisedShot}
use pureplay_analytics_inges.Database.{Database, OutboxRow}
use pureplay_analytics_inges.Database.Order.{order_by}
use pureplay_analytics_inges.Ingestion.Repository.{shot_persisted}

abbrev pub batch_size : ℕ
batch_size = 100

-- What a pass over some rows is done with: the ids to delete, and the events that were published.
pub record Pass (N : Type 0) : Type 0 where
  pub successful_ids : List ℕ
  pub emitted : List (NormalisedShot N)

-- The rows of a batch: the oldest of those that no other transaction has locked.
unfoldable pub pending_batch :
    {N : Type 0} → (OutboxRow N → Bool) → List (OutboxRow N) → List (OutboxRow N)
pending_batch unlocked rows =
    take batch_size (order_by (λ row. row.created_at) (keep unlocked rows))

abbrev pub is_done : {N : Type 0} → List ℕ → OutboxRow N → Bool
is_done ids row = any (λ id. id == row.id) ids

-- `listeners shot` is false where a listener of the event throws.
module _ {N : Type 0} (listeners : NormalisedShot N → Bool) where
  -- The event of a row, `{ ...row.payload, raw_payload: {} }`.
  abbrev publish_row : OutboxRow N → Pass N → Pass N
  publish_row row pass =
      if text_eq row.event_type shot_persisted
      then (if listeners (record row.payload { raw_payload = end })
          then record {
            successful_ids = row.id ∷ pass.successful_ids;
            emitted = record row.payload { raw_payload = end } ∷ pass.emitted;
          }
          else pass)
      else record pass { successful_ids = row.id ∷ pass.successful_ids }

  -- The loop over the rows, first row first.
  unfoldable pub publish_rows : List (OutboxRow N) → Pass N
  publish_rows [] = record { successful_ids = []; emitted = [] }
  publish_rows (row ∷ rows) = publish_row row (publish_rows rows)

  -- One cycle that commits: the events that it has published, and the tables after its DELETE.
  unfoldable pub publish_pending :
      (OutboxRow N → Bool) → Database N → List (NormalisedShot N) × Database N
  publish_pending unlocked db =
      let pass = publish_rows (pending_batch unlocked db.outbox_events) in
      (
        pass.emitted,
        record db {
          outbox_events = keep (λ row. not (is_done pass.successful_ids row)) db.outbox_events;
        },
      )
