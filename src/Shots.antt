-- ===== src/Shots.antt =====
-- src/shots/: the pages of a user's shots, newest first, and the query that a route makes of its
-- parameters.
pub mod Client
pub mod Query
pub mod Listing
pub mod Rows
pub mod Shown
pub mod Walk
use pureplay_analytics_inges.Prelude.{
  last?, ℕ, ◌+◌, Bool, true, false, Option, none, some, List, [], ◌∷◌, map, Text, codes, text_eq,
  truthy, or_else, ℤ, pos, negsuc, ◌+ℤ◌, ◌-ℤ◌, ltb_ℤ, length, if◌then◌else◌,
}
use pureplay_analytics_inges.Domain.Shot.{NormalisedShot, as_vendor}
use pureplay_analytics_inges.Database.{Database}
use pureplay_analytics_inges.Ingestion.Repository.{without_payload}
use pureplay_analytics_inges.Shots.Query.{
  Texts, Limit, number, ShotsQuery, ShotsFilter, ShotsPage, Answer, ok, unknown_vendor,
  database_error, ◌>>=◌, default_window, page_limit, sql_limit, slice_to, window_bound,
  cursor_place, sql_instant, sql_filter, check_club, selected, next_cursor_of,
}

module _ {N : Type 0} where
  abbrev pub returned :
      (List (NormalisedShot N) → ShotsPage N)
      → Option (List (NormalisedShot N))
      → Answer (ShotsPage N)
  returned page none = database_error
  returned page (some rows) = ok (page rows)

module _ (texts : Texts) {N : Type 0} where
  -- From the rows that the database returns to the response.
  unfoldable pub page_of : ℤ → ℤ → ℤ → Option Text → Bool → List (NormalisedShot N) → ShotsPage N
  page_of limit since until club include_near_duplicates rows =
      let has_more = ltb_ℤ limit (pos (length rows)) in
      let items = if has_more then slice_to limit rows else rows in
      record {
        items = map without_payload items;
        next_cursor = if has_more then next_cursor_of texts (last? items) else none;
        has_more = has_more;
        limit = limit;
        since = since;
        until = until;
        club = club;
        include_near_duplicates = include_near_duplicates;
      }

  unfoldable pub execute_query : ShotsFilter → ShotsQuery → ℤ → Database N → Answer (ShotsPage N)
  execute_query filter query now db =
      let limit = page_limit query.limit in
      let include_near_duplicates = or_else query.include_near_duplicates false in
      window_bound texts (truthy query.since) (codes "since") (now -ℤ default_window) >>= λ since.
      window_bound texts (truthy query.until) (codes "until") now >>= λ until.
      check_club (truthy query.club) >>= λ club.
      cursor_place texts (truthy query.cursor) >>= λ cursor.
      sql_instant texts (texts.iso since) >>= λ from. sql_instant texts (texts.iso until) >>= λ to.
      sql_filter filter >>= λ where_filter.
      returned (page_of limit since until query.club include_near_duplicates) (
        sql_limit (limit +ℤ pos 1)
          (selected texts where_filter from to club include_near_duplicates cursor db.shots))

  unfoldable pub list_by_canonical_user : Text → ShotsQuery → ℤ → Database N → Answer (ShotsPage N)
  list_by_canonical_user user query now db =
      execute_query (record { canonical_user_id = some user; vendor = none; vendor_user_id = none })
        query now db

  unfoldable pub list_by_vendor_user :
      Text → Text → ShotsQuery → ℤ → Database N → Answer (ShotsPage N)
  list_by_vendor_user vendor vendor_user_id query now db = elim (as_vendor vendor) [
    | none ↦ unknown_vendor vendor
    | some v ↦
        execute_query
          (record {
            canonical_user_id = none;
            vendor = some v;
            vendor_user_id = some vendor_user_id;
          })
          query now db
  ]

abbrev pub limit_of : Option ℤ → Option Limit
limit_of none = none
limit_of (some n) = some (number n)

-- The query of a route; `parse_int` is `none` for NaN.
unfoldable pub query_of :
    (Text → Option ℤ)
    → Option Text
    → Option Text
    → Option Text
    → Option Text
    → Option Text
    → Option Text
    → ShotsQuery
query_of parse_int since until club cursor limit include_near_duplicates = record {
  since = since;
  until = until;
  club = club;
  cursor = cursor;
  limit = elim limit [ none ↦ none | some t ↦ limit_of (parse_int t) ];
  include_near_duplicates =
      some (elim include_near_duplicates [ none ↦ false | some t ↦ text_eq t (codes "true") ]);
}
