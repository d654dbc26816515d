-- ===== src/Examples/Answers.antt =====
-- The answers for four queries that the database refuses or that have no such vendor.
use pureplay_analytics_inges.Prelude.{none, some, [], negsuc}
use pureplay_analytics_inges.Platform.Sample.{plain}
use pureplay_analytics_inges.Shots.Query.{ShotsQuery, Limit}
use pureplay_analytics_inges.Stats.{StatsQuery}

abbrev negative_page : ShotsQuery
negative_page = record {
  since = none;
  until = none;
  club = none;
  cursor = none;
  limit = some (Limit.number (negsuc 4));
  include_near_duplicates = none;
}

abbrev empty_club : StatsQuery
empty_club = record { since = none; until = none; club = some [] }
