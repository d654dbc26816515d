-- ===== src/Examples/Seconds.antt =====
-- Two SwingMetric shots of one second.
use pureplay_analytics_inges.Prelude.{
  ℕ, ◌≡◌, refl, true, false, none, some, [], ◌∷◌, codes, text_eq, pos,
}
use pureplay_analytics_inges.Platform.Sample.{whole_numbers, plain}
use pureplay_analytics_inges.Domain.Json.{end}
use pureplay_analytics_inges.Domain.Club.{normalise_club, looked_up, trim, club_of}
use pureplay_analytics_inges.Domain.Shot.{NormalisedShot}
use pureplay_analytics_inges.Domain.Units.{mph_to_mps, yd_to_m}
use pureplay_analytics_inges.Database.{Database, satisfies_checks, insert_shot}
use pureplay_analytics_inges.Ingestion.Repository.{
  UpsertResult, upsert_if_new, add_event, shot_persisted, without_payload,
}
use pureplay_analytics_inges.Webhooks.Swingmetric.{
  SwingmetricShot, SwingmetricPayload, parse_single_shot,
}
use pureplay_analytics_inges.Webhooks.Swingmetric.Second.{upsert_if_new-parse_single_shot}
use pureplay_analytics_inges.Examples.Samples.{empty_tables}

abbrev launch_shot : ℕ → SwingmetricShot ℕ
launch_shot t = record {
  ts_ms = t;
  club = codes "dr";
  ball_speed_mph = 0;
  swing_speed_mph = none;
  launch_deg = 9;
  spin_rpm = none;
  carry_yd = 0;
  total_yd = none;
  offline_yd = 0;
}

abbrev pub one_second : SwingmetricPayload ℕ
one_second = record {
  session_id = codes "s";
  player = codes "ann";
  device = codes "d";
  shots = launch_shot 5100 ∷ launch_shot 5900 ∷ [];
}

abbrev early_shot : NormalisedShot ℕ
early_shot = parse_single_shot (codes "u1") end (launch_shot 5100) one_second (pos 6000)

abbrev late_shot : NormalisedShot ℕ
late_shot = parse_single_shot (codes "u2") end (launch_shot 5900) one_second (pos 6000)

late_is_storable : satisfies_checks late_shot ≡ true
unfolding satisfies_checks parse_single_shot mph_to_mps yd_to_m normalise_club looked_up trim
    club_of text_eq
late_is_storable = refl

abbrev early_row : UpsertResult
early_row = record { inserted = true; canonical_shot_id = codes "u1" }

abbrev early_stored : Database ℕ
early_stored =
    add_event shot_persisted (without_payload early_shot) (pos 7)
      (record empty_tables { shots = early_shot ∷ [] })

early_is_stored : upsert_if_new early_shot (pos 7) empty_tables ≡ some (early_row, early_stored)
unfolding upsert_if_new insert_shot satisfies_checks parse_single_shot mph_to_mps yd_to_m
    normalise_club looked_up trim club_of text_eq
early_is_stored = refl

upsert_if_new-parse_single_shot_example :
    upsert_if_new late_shot (pos 8) early_stored
    ≡ some (record { inserted = false; canonical_shot_id = codes "u1" }, early_stored)
upsert_if_new-parse_single_shot_example =
    upsert_if_new-parse_single_shot (codes "u1") (codes "u2") end end (launch_shot 5100)
      (launch_shot 5900) one_second one_second (pos 6000) (pos 6000) (pos 7) (pos 8) empty_tables
      early_stored early_row refl refl refl late_is_storable early_is_stored
