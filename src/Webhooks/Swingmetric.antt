-- ===== src/Webhooks/Swingmetric.antt =====
-- src/webhooks/swingmetric: the conditions of the schema on a payload whose members have the right
-- types and their canonical names, and the parser. `ts_ms` is an integer from 0 that a double holds
-- exactly.
pub mod Second
use pureplay_analytics_inges.Prelude.{
  ℕ, ◌/◌, Bool, ◌&&◌, Option, none, some, List, [], ◌∷◌, suc, ◌++◌, Text, codes, print_ℕ, ℤ, pos,
  length, leb,
}
use pureplay_analytics_inges.Platform.{Number, Platform}
use pureplay_analytics_inges.Domain.Json.{Members}
use pureplay_analytics_inges.Domain.Units.{mph_to_mps, yd_to_m}
use pureplay_analytics_inges.Domain.Club.{normalise_club}
use pureplay_analytics_inges.Domain.Shot.{NormalisedShot, swingmetric}
use pureplay_analytics_inges.Database.{all_of}
use pureplay_analytics_inges.Ingestion.ContentHash.{compute_content_hash}

pub record SwingmetricShot (N : Type 0) : Type 0 where
  pub ts_ms : ℕ
  pub club : Text
  pub ball_speed_mph : N
  pub swing_speed_mph : Option N
  pub launch_deg : N
  pub spin_rpm : Option N
  pub carry_yd : N
  pub total_yd : Option N
  pub offline_yd : N

-- `player` is the id of the player; the e-mail address is used by the raw payload only.
pub record SwingmetricPayload (N : Type 0) : Type 0 where
  pub session_id : Text
  pub player : Text
  pub device : Text
  pub shots : List (SwingmetricShot N)

abbrev sized : ℕ → Text → Bool
sized high t = leb 1 (length t) && leb (length t) high

module _ {N : Type 0} ⦃num : Number N⦄ where
  abbrev between : N → ℕ → N → Bool
  between low high x = num.le low x && num.le x (num.literal high 0)

  -- `is_int` is zod's `int()`.
  unfoldable pub accepts_swingmetric_shot : (N → Bool) → SwingmetricShot N → Bool
  accepts_swingmetric_shot is_int s =
      let zero = num.literal 0 0 in
      sized 64 s.club
      && between zero 268 s.ball_speed_mph
      && all_of (between zero 230) s.swing_speed_mph
      && between (num.neg (num.literal 10 0)) 70 s.launch_deg
      && all_of (λ n. is_int n && between zero 15000 n) s.spin_rpm
      && between zero 490 s.carry_yd
      && all_of (between zero 545) s.total_yd
      && between (num.neg (num.literal 220 0)) 220 s.offline_yd

abbrev map_some : {A B : Type 0} → (A → B) → Option A → Option B
map_some f none = none
map_some f (some a) = some (f a)

abbrev pub map_from : {A B : Type 0} → (ℕ → A → B) → ℕ → List A → List B
map_from f i [] = []
map_from f i (x ∷ xs) = f i x ∷ map_from f (suc i) xs

-- `Math.floor(shot.ts_ms / 1000)`
abbrev pub time_bucket : {N : Type 0} → SwingmetricShot N → ℕ
time_bucket shot = shot.ts_ms / 1000

module _ {N : Type 0} ⦃num : Number N⦄ ⦃p : Platform⦄ where
  -- `ulid` is the next id, and `raw` the envelope and the shot as JSON.
  unfoldable pub parse_single_shot :
      Text → Members N → SwingmetricShot N → SwingmetricPayload N → ℤ → NormalisedShot N
  parse_single_shot ulid raw shot payload received_at_utc =
      let club_code = normalise_club shot.club in
      record {
        canonical_shot_id = ulid;
        vendor = swingmetric;
        vendor_shot_id = none;
        idempotency_key =
            codes "sm|"
            ++ payload.player
            ++ codes "|"
            ++ payload.device
            ++ codes "|"
            ++ print_ℕ (time_bucket shot);
        vendor_user_id = payload.player;
        canonical_user_id = none;
        captured_at_utc = pos shot.ts_ms;
        captured_at_tz_offset_min = none;
        received_at_utc = received_at_utc;
        club_code = club_code;
        club_raw = shot.club;
        ball_speed_mps = mph_to_mps shot.ball_speed_mph;
        club_head_speed_mps = map_some mph_to_mps shot.swing_speed_mph;
        launch_angle_deg = shot.launch_deg;
        spin_rpm = shot.spin_rpm;
        carry_m = yd_to_m shot.carry_yd;
        total_m = map_some yd_to_m shot.total_yd;
        lateral_m = yd_to_m shot.offline_yd;
        device_id = some payload.device;
        session_id = some payload.session_id;
        content_hash = compute_content_hash (record {
          vendor_user_id = payload.player;
          club_code = club_code;
          captured_at_utc = pos shot.ts_ms;
          ball_speed_mps = mph_to_mps shot.ball_speed_mph;
          launch_angle_deg = shot.launch_deg;
          carry_m = yd_to_m shot.carry_yd;
          lateral_m = yd_to_m shot.offline_yd;
        });
        raw_payload = raw;
        schema_version = 1;
        parser_version = codes "1.0.0";
        duplicate_of = none;
      }

  -- The i-th shot has the id `ulids i`, and `raw` gives its payload as JSON.
  unfoldable pub parse_swingmetric :
      (ℕ → Text)
      → (SwingmetricShot N → Members N)
      → SwingmetricPayload N
      → ℤ
      → List (NormalisedShot N)
  parse_swingmetric ulids raw payload received_at_utc =
      map_from (λ i shot. parse_single_shot (ulids i) (raw shot) shot payload received_at_utc) 0
        payload.shots
