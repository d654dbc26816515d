-- ===== src/Examples/Reading.antt =====
-- A page, the pages of two shots one after the other, and an SQL file.
use pureplay_analytics_inges.Prelude.{
  ℕ, ◌≤◌, ◌≡◌, refl, false, none, some, List, [], ◌∷◌, ◌++◌, codes, text_eq, truthy, pos, ◌+ℤ◌,
  ◌-ℤ◌, All, length, arith,
}
use pureplay_analytics_inges.Platform.Sample.{whole_numbers, plain}
use pureplay_analytics_inges.Domain.Club.{trim}
use pureplay_analytics_inges.Domain.Shot.{NormalisedShot}
use pureplay_analytics_inges.Database.{Database}
use pureplay_analytics_inges.Database.Sorted.{sort_rows}
use pureplay_analytics_inges.Ingestion.Repository.{without_payload}
use pureplay_analytics_inges.Ingestion.Repository.Upsert.{IsUnique}
use pureplay_analytics_inges.Shots.{execute_query, list_by_canonical_user, page_of}
use pureplay_analytics_inges.Shots.Query.{
  ShotsQuery, ShotsFilter, ShotsPage, ok, number, check_club, page_limit, matches, selected,
  cursor_place, sql_filter, sql_text, sql_instant,
}
use pureplay_analytics_inges.Shots.Listing.{HasPlace}
use pureplay_analytics_inges.Shots.Client.{follow, Asks}
use pureplay_analytics_inges.Shots.Walk.{follow-execute_query}
use pureplay_analytics_inges.Shots.Rows.{IsShown}
use pureplay_analytics_inges.Shots.Shown.{list_by_canonical_user-IsShown}
use pureplay_analytics_inges.Migrations.{split_statements, pushed, newline}
use pureplay_analytics_inges.Migrations.Pieces.{
  Piece, ordinary, quoted, dollars, remark, terminator, AreWritten, split_statements-file,
}
use pureplay_analytics_inges.Examples.Samples.{first_shot, second_shot, empty_tables}
use pureplay_analytics_inges.Examples.Texts.{sample, sample-IsFaithful}

abbrev two_shots : Database ℕ
two_shots = record empty_tables { shots = first_shot ∷ second_shot ∷ [] }

abbrev all_shots : ShotsFilter
all_shots = record { canonical_user_id = none; vendor = none; vendor_user_id = none }

abbrev one_by_one : ShotsQuery
one_by_one = record {
  since = some (codes "0");
  until = some (codes "1");
  club = none;
  cursor = none;
  limit = some (number (pos 1));
  include_near_duplicates = none;
}

asked : Asks sample one_by_one (pos 0) (pos 1000000) none 0
unfolding truthy text_eq check_club page_limit
asked = record {
  since_text = codes "0";
  has_since = refl;
  since_read = refl;
  until_text = codes "1";
  has_until = refl;
  until_read = refl;
  club_known = refl;
  since_year = (omega arith, omega arith);
  until_year = (omega arith, omega arith);
  limit_given = refl;
}

two_shots-IsUnique : IsUnique two_shots.shots
unfolding text_eq
two_shots-IsUnique = (((refl, refl), tt), (tt, tt))

first-HasPlace : HasPlace first_shot
first-HasPlace = record { has_year = (omega arith, omega arith); has_id = λ h. cc; no_nul = refl }

second-HasPlace : HasPlace second_shot
second-HasPlace = record { has_year = (omega arith, omega arith); has_id = λ h. cc; no_nul = refl }

follow-execute_query_example :
    follow (λ q now. execute_query sample all_shots q now two_shots) (λ n. pos n) 3 one_by_one none
    ≡ some (without_payload second_shot ∷ without_payload first_shot ∷ [])
unfolding sort_rows matches truthy text_eq
follow-execute_query_example =
    follow-execute_query sample sample-IsFaithful all_shots one_by_one two_shots (λ n. pos n)
      (pos 0) (pos 1000000) none 0 asked two_shots-IsUnique
      (record { user_taken = tt; vendor_user_taken = tt }) (first-HasPlace, (second-HasPlace, tt)) 3
      (omega arith)

abbrev pub linked_shot : NormalisedShot ℕ
linked_shot = record first_shot { canonical_user_id = some (codes "u") }

abbrev pub linked_tables : Database ℕ
linked_tables = record empty_tables { shots = linked_shot ∷ second_shot ∷ [] }

abbrev any_query : ShotsQuery
any_query = record {
  since = none;
  until = none;
  club = none;
  cursor = none;
  limit = none;
  include_near_duplicates = none;
}

abbrev linked_page : ShotsPage ℕ
linked_page = record {
  items = without_payload linked_shot ∷ [];
  next_cursor = none;
  has_more = false;
  limit = pos 50;
  since = pos 200000 -ℤ pos 2592000000;
  until = pos 200000;
  club = none;
  include_near_duplicates = false;
}

listed :
    list_by_canonical_user sample (codes "u") any_query (pos 200000) linked_tables ≡ ok linked_page
unfolding list_by_canonical_user execute_query page_of selected matches sort_rows truthy check_club
    cursor_place page_limit sql_filter sql_text sql_instant text_eq ◌+ℤ◌ ◌-ℤ◌
listed = refl

list_by_canonical_user-IsShown_example :
    All
      (λ item. IsShown sample linked_tables.shots (codes "u") none linked_page item)
      linked_page.items
    × (length linked_page.items ≤ 100)
unfolding truthy
list_by_canonical_user-IsShown_example =
    list_by_canonical_user-IsShown sample (codes "u") any_query (pos 200000) linked_tables
      linked_page (λ h. cc) listed

abbrev sql : List Piece
sql =
    ordinary b'a'
    ∷ quoted (codes "x;'--")
    ∷ terminator
    ∷ remark (codes " b; 'c")
    ∷ dollars (codes "d; --")
    ∷ []

sql-AreWritten : AreWritten sql
sql-AreWritten = (refl, (refl, (refl, (refl, tt))))

split_statements-file_example :
    split_statements (codes "a'x;''--';-- b; 'c" ++ newline ∷ codes "$$d; --$$")
    ≡ codes "a'x;''--'" ∷ codes "$$d; --$$" ∷ []
unfolding pushed trim
split_statements-file_example = split_statements-file sql sql-AreWritten
