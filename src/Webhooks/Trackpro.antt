-- ===== src/Webhooks/Trackpro.antt =====
-- src/webhooks/trackpro: the conditions of the schema on a payload whose members have the right
-- types, and the parser.
use pureplay_analytics_inges.Prelude.{
  ℕ, Bool, ◌&&◌, Option, none, some, ◌++◌, Text, codes, ℤ, length, leb,
}
use pureplay_analytics_inges.Platform.{Number, Platform}
use pureplay_analytics_inges.Domain.Json.{Members}
use pureplay_analytics_inges.Domain.Club.{normalise_club}
use pureplay_analytics_inges.Domain.Shot.{NormalisedShot, trackpro}
use pureplay_analytics_inges.Database.{all_of}
use pureplay_analytics_inges.Ingestion.ContentHash.{compute_content_hash}

pub record TrackproPayload (N : Type 0) : Type 0 where
  pub shot_uid : Text
  pub user_external_id : Text
  pub session_id : Option Text
  pub device_id : Option Text
  pub captured_at : Text
  pub club : Text
  pub ball_speed_mps : N
  pub club_head_speed_mps : Option N
  pub launch_angle_deg : N
  pub spin_rpm : Option N
  pub carry_distance_m : N
  pub total_distance_m : Option N
  pub side_deviation_m : N

-- What zod decides with code of its own: the regular expression of `shot_uid`, `datetime` and `int`.
pub record TrackproChecks (N : Type 0) : Type 0 where
  pub is_shot_uid : Text → Bool
  pub is_datetime : Text → Bool
  pub is_int : N → Bool

abbrev sized : ℕ → Text → Bool
sized high t = leb 1 (length t) && leb (length t) high

module _ {N : Type 0} ⦃num : Number N⦄ where
  abbrev between : N → ℕ → N → Bool
  between low high x = num.le low x && num.le x (num.literal high 0)

  unfoldable pub accepts_trackpro : TrackproChecks N → TrackproPayload N → Bool
  accepts_trackpro c payload =
      let zero = num.literal 0 0 in
      c.is_shot_uid payload.shot_uid
      && sized 255 payload.user_external_id
      && all_of (sized 255) payload.session_id
      && all_of (sized 255) payload.device_id
      && c.is_datetime payload.captured_at
      && sized 64 payload.club
      && between zero 120 payload.ball_speed_mps
      && all_of (between zero 100) payload.club_head_speed_mps
      && between (num.neg (num.literal 10 0)) 70 payload.launch_angle_deg
      && all_of (λ n. c.is_int n && between zero 15000 n) payload.spin_rpm
      && between zero 450 payload.carry_distance_m
      && all_of (between zero 500) payload.total_distance_m
      && between (num.neg (num.literal 200 0)) 200 payload.side_deviation_m

module _ {N : Type 0} ⦃num : Number N⦄ ⦃p : Platform⦄ where
  -- `instant` is that of `new Date(captured_at)`, `ulid` the next id, and `raw` the payload as JSON.
  unfoldable pub parse_trackpro :
      (Text → ℤ) → Text → Members N → TrackproPayload N → ℤ → NormalisedShot N
  parse_trackpro instant ulid raw payload received_at_utc =
      let club_code = normalise_club payload.club in
      record {
        canonical_shot_id = ulid;
        vendor = trackpro;
        vendor_shot_id = some payload.shot_uid;
        idempotency_key = codes "tp|" ++ payload.shot_uid;
        vendor_user_id = payload.user_external_id;
        canonical_user_id = none;
        captured_at_utc = instant payload.captured_at;
        captured_at_tz_offset_min = none;
        received_at_utc = received_at_utc;
        club_code = club_code;
        club_raw = payload.club;
        ball_speed_mps = payload.ball_speed_mps;
        club_head_speed_mps = payload.club_head_speed_mps;
        launch_angle_deg = payload.launch_angle_deg;
        spin_rpm = payload.spin_rpm;
        carry_m = payload.carry_distance_m;
        total_m = payload.total_distance_m;
        lateral_m = payload.side_deviation_m;
        device_id = payload.device_id;
        session_id = payload.session_id;
        content_hash = compute_content_hash (record {
          vendor_user_id = payload.user_external_id;
          club_code = club_code;
          captured_at_utc = instant payload.captured_at;
          ball_speed_mps = payload.ball_speed_mps;
          launch_angle_deg = payload.launch_angle_deg;
          carry_m = payload.carry_distance_m;
          lateral_m = payload.side_deviation_m;
        });
        raw_payload = raw;
        schema_version = 1;
        parser_version = codes "1.0.0";
        duplicate_of = none;
      }
