-- ===== src/Examples/Counting.antt =====
-- The statistics of a user with one shot.
use pureplay_analytics_inges.Prelude.{
  ℕ, ◌+◌, ◌-◌, ◌*◌, ◌/◌, ◌≡◌, refl, none, [], ◌∷◌, codes, text_eq, truthy, pos, ◌-ℤ◌,
}
use pureplay_analytics_inges.Shots.Query.{ok, check_club, sql_filter, sql_text, sql_instant}
use pureplay_analytics_inges.Stats.{
  StatsQuery, Stats, stats_of, get_stats, execute_stats_query, counts, counted_rows,
}
use pureplay_analytics_inges.Database.Order.{order_by}
use pureplay_analytics_inges.Ingestion.ContentHash.{club_value_text}
use pureplay_analytics_inges.Stats.Numbers.{Arithmetic}
use pureplay_analytics_inges.Stats.ByClub.{IsCounted, get_stats-IsByClub}
use pureplay_analytics_inges.Examples.Texts.{sample}
use pureplay_analytics_inges.Examples.Reading.{linked_shot, linked_tables}

abbrev pub whole : Arithmetic ℕ
whole = record {
  of_ℕ = λ n. n;
  add = λ a b. a + b;
  sub = λ a b. a - b;
  square = λ a. a * a;
  mul = λ a b. a * b;
  div = λ a b. a / b;
  sqrt = λ a. a;
  floor = λ a. a;
  ceil = λ a. a;
  sort = λ xs. xs;
}

abbrev every_club : StatsQuery
every_club = record { since = none; until = none; club = none }

abbrev linked_stats : Stats ℕ
linked_stats =
    stats_of whole (codes "u") (pos 200000 -ℤ pos 2592000000) (pos 200000) none (linked_shot ∷ [])

answered :
    get_stats sample whole (codes "u") every_club (pos 200000) linked_tables ≡ ok linked_stats
unfolding get_stats execute_stats_query counts counted_rows order_by club_value_text truthy
    check_club sql_filter sql_text sql_instant text_eq ◌-ℤ◌
answered = refl

get_stats-IsByClub_example :
    IsCounted whole sample (codes "u") none linked_tables.shots linked_stats
get_stats-IsByClub_example =
    get_stats-IsByClub sample whole (codes "u") every_club (pos 200000) linked_tables linked_stats
      answered
