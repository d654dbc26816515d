-- ===== src/Examples/Delivered.antt =====
-- A TrackPro payload that is delivered again with another measurement.
use pureplay_analytics_inges.Prelude.{ℕ, none, Text, codes, ℤ, pos}
use pureplay_analytics_inges.Platform.Sample.{whole_numbers, plain}
use pureplay_analytics_inges.Webhooks.Trackpro.{TrackproPayload}
use pureplay_analytics_inges.Webhooks.Routes.{Receipt}

abbrev at_minute_three : Text → ℤ
at_minute_three t = pos 180000

abbrev delivered : ℕ → TrackproPayload ℕ
delivered speed = record {
  shot_uid = codes "s-1";
  user_external_id = codes "u-1";
  session_id = none;
  device_id = none;
  captured_at = codes "t";
  club = codes "7I";
  ball_speed_mps = speed;
  club_head_speed_mps = none;
  launch_angle_deg = 17;
  spin_rpm = none;
  carry_distance_m = 150;
  total_distance_m = none;
  side_deviation_m = 2;
}

abbrev received : Receipt
received = record {
  correlation_header = none;
  random_uuid = codes "r-1";
  received_at_utc = pos 200000;
}
