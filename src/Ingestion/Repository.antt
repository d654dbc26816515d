-- ===== src/Ingestion/Repository.antt =====
-- src/ingestion/shot-repository.ts
pub mod Skew
pub mod Upsert
pub mod NearDuplicate
pub mod Origin
use pureplay_analytics_inges.Prelude.{
  ℕ, suc, ◌*◌, ◌+◌, Bool, true, false, ◌&&◌, ◌||◌, not, Option, none, some, List, [], ◌∷◌, ◌++◌,
  Text, codes, text_eq, ℤ, pos, ◌+ℤ◌, ◌-ℤ◌, leb_ℤ, ltb_ℤ, find, keep, head?, update_where,
  if◌then◌else◌,
}
use pureplay_analytics_inges.Platform.{Number, Platform}
use pureplay_analytics_inges.Domain.Json.{end}
use pureplay_analytics_inges.Domain.Shot.{NormalisedShot, Vendor, vendor_eq}
use pureplay_analytics_inges.Database.{
  Database, OutboxRow, FailureRow, Insertion, rejected, conflict, stored, insert_shot, same_key,
  has_id,
}
use pureplay_analytics_inges.Database.Order.{order_by}
use pureplay_analytics_inges.Ingestion.ContentHash.{ContentHashInput, compute_content_hash}

pub record UpsertResult : Type 0 where
  pub inserted : Bool
  pub canonical_shot_id : Text

abbrev pub near_dedupe_window_seconds : ℕ
near_dedupe_window_seconds = 60

abbrev pub shot_persisted : Text
shot_persisted = codes "shot.persisted"

module _ {N : Type 0} where
  -- `const { raw_payload: _raw, ...shotWithoutPayload } = shot`
  abbrev pub without_payload : NormalisedShot N → NormalisedShot N
  without_payload shot = record shot { raw_payload = end }

  abbrev pub add_event : Text → NormalisedShot N → ℤ → Database N → Database N
  add_event type payload now db = record db {
    outbox_events =
        db.outbox_events
        ++ record { id = db.next_outbox_id; event_type = type; payload = payload; created_at = now }
          ∷ [];
    next_outbox_id = suc db.next_outbox_id;
  }

  abbrev existing_id : Option (NormalisedShot N) → Database N → Option (UpsertResult × Database N)
  existing_id none db = none
  existing_id (some row) db =
      some (record { inserted = false; canonical_shot_id = row.canonical_shot_id }, db)

module _ {N : Type 0} ⦃num : Number N⦄ where
  abbrev after_insert :
      NormalisedShot N → ℤ → Database N → Insertion → Option (UpsertResult × Database N)
  after_insert shot now db rejected = none
  after_insert shot now db (stored id) = some (
    record { inserted = true; canonical_shot_id = id },
    add_event shot_persisted (without_payload shot) now
        (record db { shots = db.shots ++ shot ∷ [] }),
  )
  after_insert shot now db conflict = existing_id (find (same_key shot) db.shots) db

  -- One transaction: `none` is an error, and the tables are then as they were.
  unfoldable pub upsert_if_new :
      NormalisedShot N → ℤ → Database N → Option (UpsertResult × Database N)
  upsert_if_new shot now db = after_insert shot now db (insert_shot shot db.shots)

module _ {N : Type 0} where
  abbrev pub hash_input : NormalisedShot N → ℤ → ContentHashInput N
  hash_input shot captured = record {
    vendor_user_id = shot.vendor_user_id;
    club_code = shot.club_code;
    captured_at_utc = captured;
    ball_speed_mps = shot.ball_speed_mps;
    launch_angle_deg = shot.launch_angle_deg;
    carry_m = shot.carry_m;
    lateral_m = shot.lateral_m;
  }

module _ {N : Type 0} ⦃num : Number N⦄ ⦃p : Platform⦄ where
  -- The WHERE clause of the search for an origin.
  unfoldable pub is_origin_of : NormalisedShot N → NormalisedShot N → Bool
  is_origin_of shot row =
      let window : ℤ = pos (near_dedupe_window_seconds * 1000) in
      let adjacent_hash =
        compute_content_hash (hash_input shot (shot.captured_at_utc -ℤ pos 60000)) in
      vendor_eq shot.vendor row.vendor
      && text_eq row.vendor_user_id shot.vendor_user_id
      && (text_eq row.content_hash shot.content_hash || text_eq row.content_hash adjacent_hash)
      && not (text_eq row.canonical_shot_id shot.canonical_shot_id)
      && leb_ℤ (shot.captured_at_utc -ℤ window) row.captured_at_utc
      && leb_ℤ row.captured_at_utc (shot.captured_at_utc +ℤ window)

  unfoldable pub find_origin :
      NormalisedShot N → List (NormalisedShot N) → Option (NormalisedShot N)
  find_origin shot rows =
      head? (order_by (λ row. row.captured_at_utc) (keep (is_origin_of shot) rows))

  abbrev pub flag :
      NormalisedShot N → Database N → Option (NormalisedShot N) → Option Text × Database N
  flag shot db none = (none, db)
  flag shot db (some origin) = (
    some origin.canonical_shot_id,
    record db {
      shots =
          update_where (has_id shot.canonical_shot_id)
            (λ row. record row { duplicate_of = some origin.canonical_shot_id }) db.shots;
    },
  )

  unfoldable pub check_and_flag_near_duplicates :
      NormalisedShot N → Database N → Option Text × Database N
  check_and_flag_near_duplicates shot db = flag shot db (find_origin shot db.shots)

module _ {N : Type 0} where
  unfoldable pub update_outbox_event_duplicate_of : Text → Text → Database N → Database N
  update_outbox_event_duplicate_of id duplicate_of db = record db {
    outbox_events =
        update_where (λ e. text_eq e.event_type shot_persisted && has_id id e.payload)
          (λ e. record e { payload = record e.payload { duplicate_of = some duplicate_of } })
          db.outbox_events;
  }

  unfoldable pub record_ingestion_failure : FailureRow → Database N → Database N
  record_ingestion_failure failure db = record db {
    ingestion_failures = db.ingestion_failures ++ failure ∷ [];
  }

  unfoldable pub find_by_idempotency_key : Vendor → Text → Database N → Option Text
  find_by_idempotency_key vendor key db =
      elim (find (λ row. vendor_eq vendor row.vendor && text_eq key row.idempotency_key) db.shots) [
        | none ↦ none
        | some row ↦ some row.canonical_shot_id
      ]

-- `deltaMs > maxFutureSkewSeconds * 1000 || deltaMs < -(maxPastSkewSeconds * 1000)`
unfoldable pub exceeds_skew : ℤ → ℤ → ℕ → ℕ → Bool
exceeds_skew captured received max_past max_future =
    let delta : ℤ = captured -ℤ received in
    if ltb_ℤ (pos (max_future * 1000)) delta
    then true
    else if ltb_ℤ delta (pos 0 -ℤ pos (max_past * 1000))
    then true
    else false

-- `hasExcessiveClockSkew` at its default limits.
unfoldable pub has_excessive_clock_skew : ℤ → ℤ → Bool
has_excessive_clock_skew captured received = exceeds_skew captured received 86400 300
