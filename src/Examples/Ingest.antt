-- ===== src/Examples/Ingest.antt =====
-- The ingestion modules on the sample shots: two shots of one minute and the next, one job, one
-- batch and one outbox row.
use pureplay_analytics_inges.Prelude.{
  ℕ, ◌≡◌, refl, ◌⊎◌, ◌↔◌, Bool, true, false, none, some, [], codes, text_eq, pos, ◌+ℤ◌, ◌-ℤ◌, ◌≤ℤ◌,
  floor_div, arith, In, here, All,
}
use pureplay_analytics_inges.Platform.Sample.{
  whole_numbers, plain, blank, plain-IsStandard, whole_numbers-IsPrinted,
}
use pureplay_analytics_inges.Domain.Club.{i7}
use pureplay_analytics_inges.Domain.Shot.{NormalisedShot}
use pureplay_analytics_inges.Database.{Database, OutboxRow, IsNumbered}
use pureplay_analytics_inges.World.{World, duplicate_exact}
use pureplay_analytics_inges.Ingestion.ContentHash.{
  hash_text, compute_content_hash, minute_bucket, club_value_text, round_to,
}
use pureplay_analytics_inges.Ingestion.ContentHash.Injective.{SameHashInput, hash_text-injective}
use pureplay_analytics_inges.Ingestion.Repository.{
  UpsertResult, upsert_if_new, hash_input, is_origin_of, check_and_flag_near_duplicates,
  has_excessive_clock_skew, exceeds_skew, without_payload,
}
use pureplay_analytics_inges.Ingestion.Repository.Skew.{has_excessive_clock_skew_iff}
use pureplay_analytics_inges.Ingestion.Repository.Upsert.{
  Upserted, upsert_if_new-Upserted, upsert_if_new_twice,
}
use pureplay_analytics_inges.Ingestion.Repository.NearDuplicate.{IsHashed, is_origin_of-in_order}
use pureplay_analytics_inges.Ingestion.Repository.Origin.{
  NoCollision, AreDated, is_origin_of-minute, is_origin_of-out_of_order, Checked,
  check_and_flag_near_duplicates-Checked,
}
use pureplay_analytics_inges.Ingestion.Outbox.{publish_pending}
use pureplay_analytics_inges.Ingestion.Outbox.Delivery.{
  publish_pending_delivers, publish_pending_drains,
}
use pureplay_analytics_inges.Ingestion.Processor.{finished, process}
use pureplay_analytics_inges.Domain.Json.{Members, member, end, object, string, number}
use pureplay_analytics_inges.Ingestion.Redact.{redact_pii, blocked_paths}
use pureplay_analytics_inges.Ingestion.Redact.Clean.{value_at, redact_pii-blocked_paths}
use pureplay_analytics_inges.Ingestion.Processor.Finishes.{Processed, process-Processed}
use pureplay_analytics_inges.Ingestion.Processor.Retry.{process_retried}
use pureplay_analytics_inges.Examples.Samples.{
  first_shot, second_shot, empty_tables, one_shot, new_world, first_job,
}

abbrev new_row : UpsertResult
new_row = record { inserted = true; canonical_shot_id = codes "a" }

first_upsert : upsert_if_new first_shot (pos 5) empty_tables ≡ some (new_row, one_shot)
unfolding upsert_if_new pureplay_analytics_inges.Database.insert_shot
    pureplay_analytics_inges.Database.satisfies_checks
first_upsert = refl

upsert_if_new-Upserted_example : Upserted first_shot (pos 5) empty_tables new_row one_shot
upsert_if_new-Upserted_example =
    upsert_if_new-Upserted first_shot (pos 5) empty_tables one_shot new_row first_upsert

upsert_if_new_twice_example :
    upsert_if_new first_shot (pos 9) one_shot
    ≡ some (record { inserted = false; canonical_shot_id = codes "a" }, one_shot)
upsert_if_new_twice_example =
    upsert_if_new_twice first_shot (pos 5) (pos 9) empty_tables one_shot new_row first_upsert

check_and_flag_near_duplicates-Checked_example :
    Checked second_shot one_shot
      (check_and_flag_near_duplicates second_shot one_shot).0
      (check_and_flag_near_duplicates second_shot one_shot).1
check_and_flag_near_duplicates-Checked_example =
    check_and_flag_near_duplicates-Checked second_shot one_shot

first-IsHashed : IsHashed first_shot
first-IsHashed = refl

second-IsHashed : IsHashed second_shot
second-IsHashed = refl

same_input :
    SameHashInput (hash_input first_shot (pos 100000)) (hash_input second_shot (pos 100000))
same_input = record {
  vendor_user_id = refl;
  club_code = refl;
  minute = refl;
  ball_speed = refl;
  launch_angle = refl;
  carry = refl;
  lateral = refl;
}

is_origin_of-in_order_example : is_origin_of second_shot first_shot ≡ true
unfolding text_eq floor_div ◌-ℤ◌ ◌+ℤ◌
is_origin_of-in_order_example =
    is_origin_of-in_order second_shot first_shot second-IsHashed first-IsHashed refl same_input refl
      (ground arith) (ground arith)

found_first : is_origin_of second_shot first_shot ≡ true
unfolding is_origin_of compute_content_hash hash_text minute_bucket text_eq club_value_text
    floor_div ◌-ℤ◌ round_to ◌+ℤ◌
found_first = refl

in_order_dated : AreDated second_shot first_shot
unfolding floor_div ◌-ℤ◌
in_order_dated = record {
  shot = (ground arith, ground arith);
  before = (ground arith, ground arith);
  stored = (ground arith, ground arith);
}

reverse_dated : AreDated first_shot second_shot
unfolding floor_div ◌-ℤ◌
reverse_dated = record {
  shot = (ground arith, ground arith);
  before = (ground arith, ground arith);
  stored = (ground arith, ground arith);
}

in_order-NoCollision : NoCollision second_shot first_shot
unfolding compute_content_hash
in_order-NoCollision = record { same_minute = λ h. h; minute_before = λ h. h }

reverse-NoCollision : NoCollision first_shot second_shot
unfolding compute_content_hash
reverse-NoCollision = record { same_minute = λ h. h; minute_before = λ h. h }

is_origin_of-minute_example :
    SameHashInput (hash_input first_shot (pos 100000)) (hash_input second_shot (pos 130000))
    ⊎ SameHashInput
        (hash_input first_shot (pos 100000))
        (hash_input second_shot (pos 130000 -ℤ pos 60000))
is_origin_of-minute_example =
    is_origin_of-minute second_shot first_shot i7 i7 plain-IsStandard whole_numbers-IsPrinted
      in_order-NoCollision in_order_dated second-IsHashed first-IsHashed refl refl found_first

is_origin_of-out_of_order_example : is_origin_of first_shot second_shot ≡ false
unfolding floor_div
is_origin_of-out_of_order_example =
    is_origin_of-out_of_order first_shot second_shot i7 i7 plain-IsStandard whole_numbers-IsPrinted
      reverse-NoCollision reverse_dated first-IsHashed second-IsHashed refl refl (ground arith)

same_text :
    hash_text (hash_input first_shot (pos 100000)) ≡ hash_text (hash_input first_shot (pos 110000))
unfolding hash_text minute_bucket floor_div
same_text = refl

hash_text-injective_example :
    SameHashInput (hash_input first_shot (pos 100000)) (hash_input first_shot (pos 110000))
unfolding floor_div
hash_text-injective_example =
    hash_text-injective (hash_input first_shot (pos 100000)) (hash_input first_shot (pos 110000)) i7
      i7 plain-IsStandard whole_numbers-IsPrinted refl refl (ground arith, ground arith)
      (ground arith, ground arith) same_text

has_excessive_clock_skew_iff_example :
    (has_excessive_clock_skew (pos 500000) (pos 200000) ≡ false)
    ↔ ((pos 500000 ≤ℤ pos 200000 +ℤ pos 300000) × (pos 200000 ≤ℤ pos 500000 +ℤ pos 86400000))
has_excessive_clock_skew_iff_example = has_excessive_clock_skew_iff (pos 500000) (pos 200000)

process-Processed_example :
    Processed (pos 5) first_job new_world (process (pos 5) first_job new_world)
process-Processed_example = process-Processed (pos 5) first_job new_world

within_window : has_excessive_clock_skew (pos 100000) (pos 200000) ≡ false
unfolding has_excessive_clock_skew exceeds_skew ◌-ℤ◌
within_window = refl

process_retried_example :
    (w : World ℕ) × (process (pos 9) first_job (record new_world { db = one_shot })
      ≡ some (finished duplicate_exact, w))
    × (w.db ≡ one_shot)
process_retried_example =
    process_retried first_job none (pos 5) (pos 9) empty_tables (record new_world { db = one_shot })
      new_row within_window first_upsert

abbrev player_payload : Members ℕ
player_payload =
    member (codes "shot") (number 7)
      (member (codes "player") (object (member (codes "email") (string (codes "a@b.co")) end)) end)

redact_pii-blocked_paths_example :
    (clean : Members ℕ) × (redact_pii player_payload ≡ blank.scrub_emails (blank.stringify clean))
    × All (λ path. value_at path (some (object clean)) ≡ none) blocked_paths
redact_pii-blocked_paths_example = redact_pii-blocked_paths player_payload

abbrev first_event : OutboxRow ℕ
first_event = record {
  id = 1;
  event_type = codes "shot.persisted";
  payload = first_shot;
  created_at = pos 5;
}

abbrev heard : NormalisedShot ℕ → Bool
heard shot = true

abbrev free : OutboxRow ℕ → Bool
free row = true

publish_pending_delivers_example :
    In first_event (publish_pending heard free one_shot).1.outbox_events
    ⊎ In (without_payload first_shot) (publish_pending heard free one_shot).0
    ⊎ (text_eq (codes "shot.persisted") (codes "shot.persisted") ≡ false)
publish_pending_delivers_example =
    publish_pending_delivers heard free one_shot first_event (ground arith, tt, tt) here

publish_pending_drains_example : (publish_pending heard free one_shot).1.outbox_events ≡ []
publish_pending_drains_example =
    publish_pending_drains heard free one_shot (λ shot. refl) (λ row. refl) (ground arith)
