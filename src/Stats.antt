-- ===== src/Stats.antt =====
-- src/stats/stats.service.ts: the statistics of a user's shots by club. An instant stands for its ISO
-- text, and `N` is the type of doubles.
pub mod Numbers
pub mod Groups
pub mod Partition
pub mod ByClub
use pureplay_analytics_inges.Prelude.{
  ℕ, suc, ◌+◌, ◌-◌, Bool, true, false, not, ◌&&◌, Option, none, some, List, [], ◌∷◌, ◌++◌, map,
  Text, codes, text_eq, text_before, truthy, ℤ, pos, ◌+ℤ◌, ◌-ℤ◌, leb_ℤ, ltb_ℤ, ltb, ◌==◌, length,
  take, drop, head?, keep, any, is_some, if◌then◌else◌,
}
use pureplay_analytics_inges.Domain.Shot.{NormalisedShot, Vendor, vendor_eq, vendor_text, as_vendor}
use pureplay_analytics_inges.Database.{Database}
use pureplay_analytics_inges.Database.Order.{order_by}
use pureplay_analytics_inges.Ingestion.ContentHash.{club_value_text}
use pureplay_analytics_inges.Shots.Query.{
  Texts, ShotsFilter, Answer, ok, invalid_date, unknown_vendor, database_error, ◌>>=◌, where_text,
  where_vendor, default_window, window_bound, check_club, is_missing, sql_instant, sql_filter,
}
use pureplay_analytics_inges.Stats.Numbers.{
  Arithmetic, NumericStats, Spread, SpinStats, numeric_stats, spread, spin_stats, stddev,
}
use pureplay_analytics_inges.Stats.Groups.{Group, club_of_row, group_rows}

pub record StatsQuery : Type 0 where
  pub since : Option Text
  pub until : Option Text
  pub club : Option Text

pub record ClubAggregate (N : Type 0) : Type 0 where
  pub club_code : Text
  pub sample_size : ℕ
  pub carry_m : NumericStats N
  pub lateral_m : NumericStats N
  pub ball_speed_mps : Spread N
  pub launch_angle_deg : Spread N
  pub spin_rpm : SpinStats N
  pub lateral_sigma_m : N
  pub carry_sigma_m : N
  pub low_sample_size : Bool

pub record Stats (N : Type 0) : Type 0 where
  pub user_id : Text
  pub since : ℤ
  pub until : ℤ
  pub club : Option Text
  pub shot_count : ℕ
  pub capped : Bool
  pub by_club : List (ClubAggregate N)

abbrev pub low_sample_size_threshold : ℕ
low_sample_size_threshold = 10

abbrev pub max_stats_rows : ℕ
max_stats_rows = 10000

module _ {N : Type 0} (num : Arithmetic N) where
  -- The aggregate of an entry of the Map.
  unfoldable pub aggregate : Group N → ClubAggregate N
  aggregate (club, shots) =
      let is_low_sample = ltb (length shots) low_sample_size_threshold in
      let carry = num.sort (map (λ s. s.carry_m) shots) in
      let lateral = num.sort (map (λ s. s.lateral_m) shots) in
      record {
        club_code = club;
        sample_size = length shots;
        carry_m = numeric_stats num is_low_sample carry;
        lateral_m = numeric_stats num is_low_sample lateral;
        ball_speed_mps = spread num (map (λ s. s.ball_speed_mps) shots);
        launch_angle_deg = spread num (map (λ s. s.launch_angle_deg) shots);
        spin_rpm = spin_stats num shots;
        lateral_sigma_m = stddev num lateral;
        carry_sigma_m = stddev num carry;
        low_sample_size = is_low_sample;
      }

  unfoldable pub stats_of : Text → ℤ → ℤ → Option Text → List (NormalisedShot N) → Stats N
  stats_of label since until club rows = record {
    user_id = label;
    since = since;
    until = until;
    club = club;
    shot_count = length rows;
    capped = length rows == max_stats_rows;
    by_club = map aggregate (group_rows rows []);
  }

module _ {N : Type 0} where
  unfoldable pub counts : ShotsFilter → ℤ → ℤ → Option Text → NormalisedShot N → Bool
  counts filter since until club row =
      where_text filter.canonical_user_id row.canonical_user_id
      && where_vendor filter.vendor row.vendor
      && where_text filter.vendor_user_id (some row.vendor_user_id)
      && leb_ℤ since row.captured_at_utc
      && leb_ℤ row.captured_at_utc until
      && is_missing row.duplicate_of
      && not (text_eq (club_of_row row) (codes "PT"))
      && where_text club (some (club_of_row row))

  -- The newest rows first, and no more than the cap.
  unfoldable pub counted_rows :
      ShotsFilter → ℤ → ℤ → Option Text → List (NormalisedShot N) → List (NormalisedShot N)
  counted_rows filter since until club rows =
      take max_stats_rows (
        order_by (λ row. pos 0 -ℤ row.captured_at_utc) (keep (counts filter since until club) rows))

-- The empty text is no value of the enum `club_code`, and is compared with it all the same.
abbrev pub sql_club : Option Text → Answer (Option Text)
sql_club none = ok none
sql_club (some []) = database_error
sql_club (some (c ∷ t)) = ok (some (c ∷ t))

-- The two ISO texts are compared as texts.
abbrev pub check_window : Texts → ℤ → ℤ → Answer (Unit {0})
check_window texts since until =
    if text_before (texts.iso since) (texts.iso until)
    then ok tt
    else invalid_date (codes "since") (
        codes "since ("
        ++ texts.iso since
        ++ codes ") must be before until ("
        ++ texts.iso until
        ++ codes ")")

module _ (texts : Texts) {N : Type 0} (num : Arithmetic N) where
  unfoldable pub execute_stats_query :
      ShotsFilter → Text → StatsQuery → ℤ → Database N → Answer (Stats N)
  execute_stats_query filter label query now db =
      window_bound texts (truthy query.since) (codes "since") (now -ℤ default_window) >>= λ since.
      window_bound texts (truthy query.until) (codes "until") now >>= λ until.
      check_window texts since until >>= λ checked. check_club (truthy query.club) >>= λ known.
      sql_club query.club >>= λ club. sql_instant texts (texts.iso since) >>= λ from.
      sql_instant texts (texts.iso until) >>= λ to. sql_filter filter >>= λ where_filter.
      ok (
        stats_of num label since until query.club (counted_rows where_filter from to club db.shots))

  unfoldable pub get_stats : Text → StatsQuery → ℤ → Database N → Answer (Stats N)
  get_stats user query now db =
      execute_stats_query
        (record { canonical_user_id = some user; vendor = none; vendor_user_id = none }) user query
        now db

  unfoldable pub get_stats_by_vendor_user :
      Text → Text → StatsQuery → ℤ → Database N → Answer (Stats N)
  get_stats_by_vendor_user vendor vendor_user_id query now db = elim (as_vendor vendor) [
    | none ↦ unknown_vendor vendor
    | some v ↦
        execute_stats_query
          (record {
            canonical_user_id = none;
            vendor = some v;
            vendor_user_id = some vendor_user_id;
          })
          (vendor ++ codes "/" ++ vendor_user_id) query now db
  ]
