-- ===== src/Shots/Shown.antt =====
-- src/shots/shots.service.ts: which rows a page shows.
use mathlib.Core.Path.{subst}
use pureplay_analytics_inges.Prelude.{
  take-All, map-All, length-map, some-injective, zero, suc, ◌-◌, ◌≤◌, ◌≡◌, ◌≢◌, refl, Bool, true,
  false, Option, none, some, List, [], Text, codes, truthy, or_else, ℤ, pos, negsuc, ◌≤ℤ◌, ltb_ℤ,
  ◌+ℤ◌, ◌-ℤ◌, length, take, length-take, All, In, arith, inl, inr, Bool-cases,
}
use pureplay_analytics_inges.Domain.Shot.{NormalisedShot}
use pureplay_analytics_inges.Database.{Database}
use pureplay_analytics_inges.Ingestion.Repository.{without_payload}
use pureplay_analytics_inges.Shots.{page_of, execute_query, list_by_canonical_user, returned}
use pureplay_analytics_inges.Shots.Query.{
  sql_filter, Texts, ShotsQuery, ShotsFilter, ShotsPage, ok, default_window, page_limit, sql_limit,
  slice_to, window_bound, cursor_place, check_club, matches, Limit, selected,
}
use pureplay_analytics_inges.Shots.Rows.{
  sql_filter-ok, IsShown, check_club-ok, matches-of_user, selected-All, chain-ok,
}

page_limit-le : (n : Option Limit) → page_limit n ≤ℤ pos 100
unfolding page_limit
page_limit-le n = ground arith

module _ {N : Type 0} where
  slice_to-All :
      (P : NormalisedShot N → Type 0) (n : ℤ) (rows : List (NormalisedShot N))
      → All P rows
      → All P (slice_to n rows)
  slice_to-All P (pos n) rows h = take-All P n rows h
  slice_to-All P (negsuc n) rows h = take-All P (length rows - suc n) rows h

  sql_limit-All :
      (P : NormalisedShot N → Type 0) (n : ℤ) (rows limited : List (NormalisedShot N))
      → sql_limit n rows ≡ some limited
      → All P rows
      → All P limited
  sql_limit-All P (pos n) rows limited h k = subst (All P) (some-injective h) (take-All P n rows k)
  sql_limit-All P (negsuc n) rows limited h k = cc

  page_of-All :
      (texts : Texts) (P Q : NormalisedShot N → Type 0) (limit since until : ℤ) (club : Option Text)
      (near : Bool) (rows : List (NormalisedShot N))
      → ((row : NormalisedShot N) → P row → Q (without_payload row))
      → All P rows
      → All Q (page_of texts limit since until club near rows).items
  unfolding page_of
  page_of-All texts P Q limit since until club near rows f h =
      elim (Bool-cases (ltb_ℤ limit (pos (length rows)))) [
        | inl e ↦
            rw e (map-All P Q without_payload f (slice_to limit rows) (slice_to-All P limit rows h))
        | inr e ↦ rw e (map-All P Q without_payload f rows h)
      ]

  returned-ok :
      (f : List (NormalisedShot N) → ShotsPage N) (rows : Option (List (NormalisedShot N)))
      (page : ShotsPage N)
      → returned f rows ≡ ok page
      → (l : List (NormalisedShot N)) × (rows ≡ some l) × (f l ≡ page)
  returned-ok f none page h = cc
  returned-ok f (some l) page h = (l, refl, cc)

  page_of-length :
      (texts : Texts) (limit since until : ℤ) (club : Option Text) (near : Bool)
      (all rows : List (NormalisedShot N))
      → sql_limit (limit +ℤ pos 1) all ≡ some rows
      → limit ≤ℤ pos 100
      → length (page_of texts limit since until club near rows).items ≤ 100
  unfolding page_of ◌+ℤ◌
  page_of-length texts (pos n) since until club near all rows h k = ground (
    arith,
    length-map without_payload rows,
    length-map without_payload (take n rows),
    length-take n rows,
  )
  page_of-length texts (negsuc zero) since until club near all rows h k =
      subst (λ r. length (page_of texts (negsuc zero) since until club near r).items ≤ 100)
        (some-injective h) (omega arith)
  page_of-length texts (negsuc (suc n)) since until club near all rows h k = ground arith

  page_of-IsShown :
      (texts : Texts) (user : Text) (limit since until from to : ℤ) (given club : Option Text)
      (near : Bool) (db_rows rows : List (NormalisedShot N)) (row : NormalisedShot N)
      → user ≢ []
      → (matches
            (record { canonical_user_id = some user; vendor = none; vendor_user_id = none })
            from
            to
            club
            near
            row
          ≡ true)
        × In row db_rows
      → texts.instant (texts.iso since) ≡ some from
      → texts.instant (texts.iso until) ≡ some to
      → IsShown texts db_rows user club
          (page_of texts limit since until given near rows)
          (without_payload row)
  unfolding page_of
  page_of-IsShown texts user limit since until from to given club near db_rows rows row u
        (h, stored) read read' =
      let (of_user, after, before, of_club, original) =
        matches-of_user user from to club near row u h in
      record {
        row = row;
        is_stored = stored;
        is_item = refl;
        is_of_user = of_user;
        from = from;
        reads_since = read;
        is_since = after;
        to = to;
        reads_until = read';
        is_until = before;
        is_of_club = of_club;
        is_original = original;
      }

-- A page for a canonical user that is not empty has at most 100 rows, and each is a stored row
-- without its raw payload that has this user, lies in the window that the page names, as the
-- database reads its bounds, has the club of the query if there is one, and is no near
-- duplicate unless those are included.
pub list_by_canonical_user-IsShown :
    (texts : Texts) {N : Type 0} (user : Text) (query : ShotsQuery) (now : ℤ) (db : Database N)
    (page : ShotsPage N)
    → user ≢ []
    → list_by_canonical_user texts user query now db ≡ ok page
    → All (λ item. IsShown texts db.shots user (truthy query.club) page item) page.items
      × (length page.items ≤ 100)
unfolding list_by_canonical_user execute_query
list_by_canonical_user-IsShown texts {N} user query now db page u h =
    let filter : ShotsFilter = record {
      canonical_user_id = some user;
      vendor = none;
      vendor_user_id = none;
    } in
    let limit = page_limit query.limit in
    let near = or_else query.include_near_duplicates false in
    let rows_of : ℤ → ℤ → Option Text → Option (ℤ × Text) → Option (List (NormalisedShot N)) =
      λ from to club cursor.
        sql_limit (limit +ℤ pos 1) (selected texts filter from to club near cursor db.shots) in
    let (since, until, club, cursor, from, to, where_filter, known, read, read', same, answered) =
      chain-ok texts
        (window_bound texts (truthy query.since) (codes "since") (now -ℤ default_window))
        (window_bound texts (truthy query.until) (codes "until") now)
        (check_club (truthy query.club)) (cursor_place texts (truthy query.cursor))
        (sql_filter filter)
        (λ since until club cursor from to where_filter.
          returned (page_of texts limit since until query.club near) (
            sql_limit (limit +ℤ pos 1)
              (selected texts where_filter from to club near cursor db.shots)))
        page h in
    let (rows, limited, made) =
      returned-ok (page_of texts limit since until query.club near) (rows_of from to club cursor)
        page
        (subst
          (λ w.
            returned (page_of texts limit since until query.club near)
              (sql_limit (limit +ℤ pos 1) (selected texts w from to club near cursor db.shots))
            ≡ ok page)
          (sql_filter-ok filter where_filter same) answered) in
    subst
      (λ page.
        All (λ item. IsShown texts db.shots user (truthy query.club) page item) page.items
        × (length page.items ≤ 100))
      made
      (
        page_of-All texts (λ row. (matches filter from to club near row ≡ true) × In row db.shots)
            (λ item.
              IsShown texts db.shots user (truthy query.club)
                (page_of texts limit since until query.club near rows) item)
            limit since until query.club near rows
            (λ row k.
              subst
                (λ club.
                  IsShown texts db.shots user club
                    (page_of texts limit since until query.club near rows) (without_payload row))
                (check_club-ok (truthy query.club) club known)
                (page_of-IsShown texts user limit since until from to query.club club near db.shots
                  rows row u k read read'))
            (sql_limit-All _ (limit +ℤ pos 1) _ rows limited
              (selected-All texts filter from to club near cursor db.shots)),
        page_of-length texts limit since until query.club near _ rows limited
            (page_limit-le query.limit),
      )
