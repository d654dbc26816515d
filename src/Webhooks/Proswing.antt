-- ===== src/Webhooks/Proswing.antt =====
-- src/webhooks/proswing: the three wire formats, their conversion to the canonical payload, and the
-- parser. The schemas are the conditions they put on a payload whose members have the right types.
pub mod Schema
pub mod Offset
pub mod Parsed
use pureplay_analytics_inges.Prelude.{
  ℕ, ◌+◌, ◌-◌, ◌*◌, ◌≡◌, Bool, true, false, ◌&&◌, ◌||◌, Option, none, some, List, [], ◌∷◌, ◌++◌,
  Text, codes, ◌==◌, leb, ℤ, pos, ◌-ℤ◌, length, drop, is_some, if◌then◌else◌,
}
use pureplay_analytics_inges.Platform.{Number, Platform}
use pureplay_analytics_inges.Domain.Json.{Members, Json, object, get}
use pureplay_analytics_inges.Domain.Units.{mph_to_mps, kph_to_mps, ft_to_m, yd_to_m}
use pureplay_analytics_inges.Domain.Club.{normalise_club}
use pureplay_analytics_inges.Domain.Shot.{NormalisedShot, proswing}
use pureplay_analytics_inges.Ingestion.ContentHash.{compute_content_hash}

pub data SpeedUnit : Type 0 where
  mph kph mps : SpeedUnit

pub data DistanceUnit : Type 0 where
  yd m ft : DistanceUnit

pub record Speed (N : Type 0) : Type 0 where
  pub value : N
  pub unit : SpeedUnit

pub record Distance (N : Type 0) : Type 0 where
  pub value : N
  pub unit : DistanceUnit

-- The canonical shot; the unit of `launch` is always "deg".
pub record ProswingCanonicalShot (N : Type 0) : Type 0 where
  pub id : Text
  pub occurred_at : Text
  pub club_code : Text
  pub ball_speed : Speed N
  pub club_speed : Option (Speed N)
  pub launch : N
  pub carry : Distance N
  pub total : Option (Distance N)
  pub deviation : Distance N
  pub spin_rpm : Option N

pub record ProswingCanonicalPayload (N : Type 0) : Type 0 where
  pub user_token : Text
  pub shot : ProswingCanonicalShot N

pub record ShotV2 (N : Type 0) : Type 0 where
  pub id : Text
  pub occurred_at : Text
  pub club_code : Text
  pub ball_speed_mph : Option N
  pub ball_speed_kph : Option N
  pub ball_speed_mps : Option N
  pub club_speed_mph : Option N
  pub club_speed_kph : Option N
  pub club_speed_mps : Option N
  pub launch_deg : N
  pub carry_yd : Option N
  pub carry_m : Option N
  pub total_yd : Option N
  pub total_m : Option N
  pub deviation_yd : Option N
  pub deviation_m : Option N
  pub deviation_ft : Option N

pub record ShotV3 (N : Type 0) : Type 0 where
  pub id : Text
  pub occurred_at : Text
  pub club_code : Text
  pub ball_speed : Speed N
  pub club_speed : Option (Speed N)
  pub launch_angle : N
  pub spin_rpm : Option N
  pub carry : Distance N
  pub total : Option (Distance N)
  pub deviation : Distance N

pub data Version : Type 0 where
  v1 v2 v3 : Version

abbrev first_of : {M : Type 0} → Option M → Option M → Option M
first_of none b = b
first_of (some a) b = some a

abbrev map_some : {A B : Type 0} → (A → B) → Option A → Option B
map_some f none = none
map_some f (some a) = some (f a)

module _ {N : Type 0} where
  abbrev has : Text → Members N → Bool
  has key ms = is_some (get key ms)

  abbrev version_of_shot : Option (Json N) → Version
  version_of_shot (some (object s)) =
      if has (codes "ball_speed_mph") s
        || has (codes "ball_speed_kph") s
        || has (codes "ball_speed_mps") s
      then v2
      else v1
  version_of_shot _ = v1

  abbrev version_of_data : Option (Json N) → Version
  version_of_data (some (object envelope)) =
      if has (codes "player") envelope then v3 else version_of_shot (get (codes "shot") envelope)
  version_of_data _ = v1

  unfoldable pub detect_version : Json N → Version
  detect_version (object raw) = version_of_data (get (codes "data") raw)
  detect_version _ = v1

  -- `none` stands for a measurement whose value is undefined.
  abbrev pub speed_in : SpeedUnit → Option N → Option (Speed N)
  speed_in u none = none
  speed_in u (some n) = some (record { value = n; unit = u })

  abbrev pub distance_in : DistanceUnit → Option N → Option (Distance N)
  distance_in u none = none
  distance_in u (some n) = some (record { value = n; unit = u })

  unfoldable pub first_speed : Option N → Option N → Option N → Option (Speed N)
  first_speed in_mph in_kph in_mps =
      first_of (speed_in mph in_mph) (first_of (speed_in kph in_kph) (speed_in mps in_mps))

  unfoldable pub first_distance : Option N → Option N → Option N → Option (Distance N)
  first_distance in_yd in_m in_ft =
      first_of (distance_in yd in_yd) (first_of (distance_in m in_m) (distance_in ft in_ft))

  abbrev canonical_v2 :
      ShotV2 N
      → Option (Speed N)
      → Option (Distance N)
      → Option (Distance N)
      → Option (ProswingCanonicalShot N)
  canonical_v2 s (some ball) (some carry) (some deviation) = some (record {
    id = s.id;
    occurred_at = s.occurred_at;
    club_code = s.club_code;
    ball_speed = ball;
    club_speed = first_speed s.club_speed_mph s.club_speed_kph s.club_speed_mps;
    launch = s.launch_deg;
    carry = carry;
    total = first_distance s.total_yd s.total_m none;
    deviation = deviation;
    spin_rpm = none;
  })
  canonical_v2 s _ _ _ = none

  -- `fromV2`; `none` where a required measurement comes out undefined.
  unfoldable pub from_v2 : ShotV2 N → Option (ProswingCanonicalShot N)
  from_v2 s =
      canonical_v2 s (first_speed s.ball_speed_mph s.ball_speed_kph s.ball_speed_mps)
        (first_distance s.carry_yd s.carry_m none)
        (first_distance s.deviation_yd s.deviation_m s.deviation_ft)

  unfoldable pub from_v3 : Text → ShotV3 N → ProswingCanonicalPayload N
  from_v3 player_id s = record {
    user_token = player_id;
    shot = record {
      id = s.id;
      occurred_at = s.occurred_at;
      club_code = s.club_code;
      ball_speed = s.ball_speed;
      club_speed = s.club_speed;
      launch = s.launch_angle;
      carry = s.carry;
      total = s.total;
      deviation = s.deviation;
      spin_rpm = s.spin_rpm;
    };
  }

-- `/([+-])(\d{2}):(\d{2})$/` on the six last characters, and the offset it gives in minutes.
abbrev pub is_digit : ℕ → Bool
is_digit c = leb b'0' c && leb c b'9'

abbrev pub minutes_of : ℕ → ℕ → ℕ → ℕ → ℕ
minutes_of a b c d = ((a - b'0') * 10 + (b - b'0')) * 60 + ((c - b'0') * 10 + (d - b'0'))

abbrev pub offset_of_tail : Text → ℤ
offset_of_tail (s ∷ a ∷ b ∷ colon ∷ c ∷ d ∷ []) =
    if is_digit a && is_digit b && colon == b':' && is_digit c && is_digit d
    then if s == b'+'
      then pos (minutes_of a b c d)
      else if s == b'-'
      then pos 0 -ℤ pos (minutes_of a b c d)
      else pos 0
    else pos 0
offset_of_tail _ = pos 0

unfoldable pub tz_offset_min : Text → ℤ
tz_offset_min t = offset_of_tail (drop (length t - 6) t)

module _ {N : Type 0} ⦃num : Number N⦄ where
  unfoldable pub convert_speed : Speed N → N
  convert_speed s = elim s.unit [
    | mph ↦ mph_to_mps s.value
    | kph ↦ kph_to_mps s.value
    | mps ↦ s.value
  ]

  unfoldable pub convert_distance : Distance N → N
  convert_distance d = elim d.unit [ yd ↦ yd_to_m d.value | m ↦ d.value | ft ↦ ft_to_m d.value ]

module _ {N : Type 0} ⦃num : Number N⦄ ⦃p : Platform⦄ where
  -- `instant` is that of `new Date(occurred_at)`, `ulid` the next id, and `raw` the payload as JSON.
  unfoldable pub parse_proswing :
      (Text → ℤ) → Text → Members N → ProswingCanonicalPayload N → ℤ → NormalisedShot N
  parse_proswing instant ulid raw payload received_at_utc =
      let shot = payload.shot in
      let club_code = normalise_club shot.club_code in
      record {
        canonical_shot_id = ulid;
        vendor = proswing;
        vendor_shot_id = some shot.id;
        idempotency_key = codes "ps|" ++ payload.user_token ++ codes "|" ++ shot.id;
        vendor_user_id = payload.user_token;
        canonical_user_id = none;
        captured_at_utc = instant shot.occurred_at;
        captured_at_tz_offset_min = some (tz_offset_min shot.occurred_at);
        received_at_utc = received_at_utc;
        club_code = club_code;
        club_raw = shot.club_code;
        ball_speed_mps = convert_speed shot.ball_speed;
        club_head_speed_mps = map_some convert_speed shot.club_speed;
        launch_angle_deg = shot.launch;
        spin_rpm = shot.spin_rpm;
        carry_m = convert_distance shot.carry;
        total_m = map_some convert_distance shot.total;
        lateral_m = convert_distance shot.deviation;
        device_id = none;
        session_id = none;
        content_hash = compute_content_hash (record {
          vendor_user_id = payload.user_token;
          club_code = club_code;
          captured_at_utc = instant shot.occurred_at;
          ball_speed_mps = convert_speed shot.ball_speed;
          launch_angle_deg = shot.launch;
          carry_m = convert_distance shot.carry;
          lateral_m = convert_distance shot.deviation;
        });
        raw_payload = raw;
        schema_version = 1;
        parser_version = codes "1.0.0";
        duplicate_of = none;
      }
