-- ===== src/Webhooks/Proswing/Schema.antt =====
-- src/webhooks/proswing/proswing.schema.ts: the conditions of the three schemas.
use pureplay_analytics_inges.Prelude.{
  ℕ, ◌≡◌, refl, Bool, true, ◌&&◌, ◌||◌, not, Option, none, some, Text, length, leb, is_some, arith,
  &&-eq-true,
}
use pureplay_analytics_inges.Platform.{Number}
use pureplay_analytics_inges.Database.{all_of}
use pureplay_analytics_inges.Webhooks.Proswing.{
  mph, kph, mps, Speed, Distance, ProswingCanonicalPayload, ProswingCanonicalShot, ShotV2, ShotV3,
  from_v2, first_speed, first_distance,
}

-- What zod decides with code of its own: `datetime({ offset: true })`, and `int()` of a number.
pub record Checks (N : Type 0) : Type 0 where
  pub is_datetime : Text → Bool
  pub is_int : N → Bool

abbrev sized : ℕ → ℕ → Text → Bool
sized low high t = leb low (length t) && leb (length t) high

module _ {N : Type 0} ⦃num : Number N⦄ where
  abbrev up_to : ℕ → N → Bool
  up_to high x = num.le (num.literal 0 0) x && num.le x (num.literal high 0)

  abbrev from_to : ℕ → ℕ → N → Bool
  from_to low high x = num.le (num.neg (num.literal low 0)) x && num.le x (num.literal high 0)

  unfoldable pub accepts_ball_speed : Speed N → Bool
  accepts_ball_speed s =
      up_to 500 s.value
      && elim s.unit [ mph ↦ true | kph ↦ true | mps ↦ not (num.lt (num.literal 120 0) s.value) ]

  unfoldable pub accepts_club_speed : Speed N → Bool
  accepts_club_speed s = up_to 300 s.value

  unfoldable pub accepts_distance : Distance N → Bool
  accepts_distance d = from_to 500 700 d.value

  -- The conditions on a V1 payload, whose shape is the canonical one without `spin_rpm`.
  unfoldable pub accepts_v1 : Checks N → ProswingCanonicalPayload N → Bool
  accepts_v1 c payload =
      let s = payload.shot in
      sized 8 255 payload.user_token
      && sized 1 255 s.id
      && c.is_datetime s.occurred_at
      && sized 1 64 s.club_code
      && accepts_ball_speed s.ball_speed
      && all_of accepts_club_speed s.club_speed
      && from_to 10 90 s.launch
      && accepts_distance s.carry
      && all_of accepts_distance s.total
      && accepts_distance s.deviation

  -- The `superRefine` of the V2 schema.
  unfoldable pub is_complete_v2 : ShotV2 N → Bool
  is_complete_v2 s =
      (is_some s.ball_speed_mph || is_some s.ball_speed_kph || is_some s.ball_speed_mps)
      && (is_some s.carry_yd || is_some s.carry_m)
      && (is_some s.deviation_yd || is_some s.deviation_m || is_some s.deviation_ft)

  unfoldable pub accepts_v2 : Checks N → Text → ShotV2 N → Bool
  accepts_v2 c user_token s =
      is_complete_v2 s
      && (sized 8 255 user_token
          && sized 1 255 s.id
          && c.is_datetime s.occurred_at
          && sized 1 64 s.club_code
          && all_of (up_to 268) s.ball_speed_mph
          && all_of (up_to 430) s.ball_speed_kph
          && all_of (up_to 120) s.ball_speed_mps
          && all_of (up_to 230) s.club_speed_mph
          && all_of (up_to 370) s.club_speed_kph
          && all_of (up_to 103) s.club_speed_mps
          && from_to 10 90 s.launch_deg
          && all_of (up_to 600) s.carry_yd
          && all_of (up_to 550) s.carry_m
          && all_of (up_to 700) s.total_yd
          && all_of (up_to 640) s.total_m
          && all_of (from_to 500 500) s.deviation_yd
          && all_of (from_to 500 500) s.deviation_m
          && all_of (from_to 1500 1500) s.deviation_ft)

  unfoldable pub accepts_v3 : Checks N → Text → Option Text → ShotV3 N → Bool
  accepts_v3 c player_id device_id s =
      sized 1 255 player_id
      && all_of (sized 1 255) device_id
      && sized 1 255 s.id
      && c.is_datetime s.occurred_at
      && sized 1 64 s.club_code
      && accepts_ball_speed s.ball_speed
      && all_of accepts_club_speed s.club_speed
      && from_to 10 90 s.launch_angle
      && all_of (λ n. c.is_int n && up_to 15000 n) s.spin_rpm
      && accepts_distance s.carry
      && all_of accepts_distance s.total
      && accepts_distance s.deviation

module _ {N : Type 0} where
  first_speed-some :
      (a b c : Option N)
      → (is_some a || is_some b || is_some c) ≡ true
      → (s : Speed N) × (first_speed a b c ≡ some s)
  unfolding first_speed
  first_speed-some (some a) b c h = (_, refl)
  first_speed-some none (some b) c h = (_, refl)
  first_speed-some none none (some c) h = (_, refl)
  first_speed-some none none none h = cc

  first_distance-some :
      (a b c : Option N)
      → (is_some a || is_some b || is_some c) ≡ true
      → (d : Distance N) × (first_distance a b c ≡ some d)
  unfolding first_distance
  first_distance-some (some a) b c h = (_, refl)
  first_distance-some none (some b) c h = (_, refl)
  first_distance-some none none (some c) h = (_, refl)
  first_distance-some none none none h = cc

module _ {N : Type 0} ⦃num : Number N⦄ where
  from_v2_complete :
      (s : ShotV2 N)
      → is_complete_v2 s ≡ true
      → (shot : ProswingCanonicalShot N) × (from_v2 s ≡ some shot)
  unfolding is_complete_v2 from_v2
  from_v2_complete s h =
      let ball =
        first_speed-some s.ball_speed_mph s.ball_speed_kph s.ball_speed_mps (ground arith) in
      let carry = first_distance-some s.carry_yd s.carry_m none (ground arith) in
      let deviation =
        first_distance-some s.deviation_yd s.deviation_m s.deviation_ft (ground arith) in
      rw (ball.1, carry.1, deviation.1) (_, refl)

  -- The conversion of a V2 shot that its schema accepts leaves no required measurement
  -- undefined.
  pub from_v2-accepts_v2 :
      (c : Checks N) (user_token : Text) (s : ShotV2 N)
      → accepts_v2 c user_token s ≡ true
      → (shot : ProswingCanonicalShot N) × (from_v2 s ≡ some shot)
  unfolding accepts_v2
  from_v2-accepts_v2 c user_token s h = from_v2_complete s (&&-eq-true _ _ h).0
