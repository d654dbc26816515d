-- ===== src/Examples/Samples.antt =====
-- Sample shots, tables and queues, over whole numbers and the sample platform.
use pureplay_analytics_inges.Prelude.{
  not, ◌||◌, ℕ, none, some, List, [], ◌∷◌, ◌++◌, Text, codes, text_eq, text_eq_refl, ℤ, pos, any,
  length, arith, if◌then◌else◌,
}
use pureplay_analytics_inges.Platform.Sample.{whole_numbers, plain, blank}
use pureplay_analytics_inges.Domain.Json.{end}
use pureplay_analytics_inges.Domain.Club.{code, i7}
use pureplay_analytics_inges.Domain.Shot.{NormalisedShot, trackpro}
use pureplay_analytics_inges.Database.{Database}
use pureplay_analytics_inges.World.{World}
use pureplay_analytics_inges.Ingestion.ContentHash.{compute_content_hash}
use pureplay_analytics_inges.Ingestion.Queue.{
  has_colon, is_no_integer, Queue, IsQueue, ShotJob, job_of,
}

-- A seven iron of user "ann", captured at an instant.
abbrev pub iron_shot : Text → ℤ → NormalisedShot ℕ
iron_shot id t = record {
  canonical_shot_id = id;
  vendor = trackpro;
  vendor_shot_id = some id;
  idempotency_key = codes "tp|" ++ id;
  vendor_user_id = codes "ann";
  canonical_user_id = none;
  captured_at_utc = t;
  captured_at_tz_offset_min = none;
  received_at_utc = pos 200000;
  club_code = code i7;
  club_raw = codes "7 iron";
  ball_speed_mps = 50;
  club_head_speed_mps = none;
  launch_angle_deg = 16;
  spin_rpm = none;
  carry_m = 140;
  total_m = none;
  lateral_m = 3;
  device_id = none;
  session_id = none;
  content_hash = compute_content_hash {N = ℕ} (record {
    vendor_user_id = codes "ann";
    club_code = code i7;
    captured_at_utc = t;
    ball_speed_mps = 50;
    launch_angle_deg = 16;
    carry_m = 140;
    lateral_m = 3;
  });
  raw_payload = end;
  schema_version = 1;
  parser_version = codes "1.0.0";
  duplicate_of = none;
}

abbrev pub first_shot : NormalisedShot ℕ
first_shot = iron_shot (codes "a") (pos 100000)

abbrev pub second_shot : NormalisedShot ℕ
second_shot = iron_shot (codes "b") (pos 130000)

abbrev pub empty_tables : Database ℕ
empty_tables = record {
  shots = [];
  outbox_events = [];
  ingestion_failures = [];
  user_identities = [];
  audit_log = [];
  next_outbox_id = 1;
  next_identity_id = 1;
}

abbrev pub one_shot : Database ℕ
one_shot = record empty_tables {
  shots = first_shot ∷ [];
  outbox_events =
      record {
        id = 1;
        event_type = codes "shot.persisted";
        payload = first_shot;
        created_at = pos 5;
      }
      ∷ [];
  next_outbox_id = 2;
}

abbrev pub new_world : World ℕ
new_world = record { db = empty_tables; redis = λ key. none; metrics = [] }

abbrev pub first_job : ShotJob ℕ
first_job = job_of first_shot (codes "req-1") (pos 200000)

-- A queue that keeps its waiting jobs by their ids.
abbrev add_id : Text → List Text → List Text
add_id id q = if any (λ other. text_eq other id) q then q else id ∷ q

abbrev pub ids : Queue ℕ (List Text)
ids = record {
  get_waiting_count = λ q. length q;
  add = λ id job q. if has_colon id || not (is_no_integer id) then none else some (add_id id q);
  has_job = λ id q. any (λ other. text_eq other id) q;
}

pub ids-IsQueue : IsQueue ids
ids-IsQueue = record {
  add_takes = λ id job q h k. (add_id id q, ground (arith, h, k));
  add_one = λ id job q q' e. ground (arith, e);
  add_known = λ id job q q' e. ground (arith, text_eq_refl id, e);
  add_keeps = λ id other job q q' e h. ground (arith, e);
  add_again = λ id job q q' e h. ground (arith, e);
}
