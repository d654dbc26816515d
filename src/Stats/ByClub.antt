-- ===== src/Stats/ByClub.antt =====
-- src/stats/stats.service.ts: the aggregates, by the rows that they are of.
use mathlib.Core.Path.{subst}
use pureplay_analytics_inges.Prelude.{
  ◌≤◌, ◌≡◌, refl, sym, ap, ◌∙◌, true, false, ◌||◌, Option, none, some, List, [], ◌∷◌, map, Text,
  text_eq, truthy, codes, ◌-ℤ◌, ℤ, pos, length, length-take, keep, any, All, All-map, map-All,
  arith,
}
use pureplay_analytics_inges.Domain.Shot.{NormalisedShot}
use pureplay_analytics_inges.Stats.{
  StatsQuery, sql_club, check_window, get_stats, execute_stats_query, ClubAggregate, Stats,
  aggregate, stats_of, counts, counted_rows, max_stats_rows,
}
use pureplay_analytics_inges.Database.{Database}
use pureplay_analytics_inges.Database.Order.{order_by}
use pureplay_analytics_inges.Shots.Query.{
  sql_instant, sql_filter, Texts, ShotsFilter, Answer, ok, ◌>>=◌, window_bound, default_window,
  check_club,
}
use pureplay_analytics_inges.Shots.Rows.{bind-ok, sql_instant-ok, sql_filter-ok}
use pureplay_analytics_inges.Stats.Numbers.{Arithmetic}
use pureplay_analytics_inges.Stats.Groups.{Group, club_of_row, group_rows}
use pureplay_analytics_inges.Stats.Partition.{
  rows_of, has_group, AreApart, AreGroups, group_rows-AreGroups,
}

module _ {N : Type 0} where
  abbrev pub HaveOwnClubs : List (ClubAggregate N) → Type 0
  HaveOwnClubs [] = Unit
  HaveOwnClubs (a ∷ others) =
      All (λ b. text_eq a.club_code b.club_code ≡ false) others × HaveOwnClubs others

  -- The aggregates of some rows: one for each club that they have, of the rows of that club in
  -- their order.
  pub record IsByClub (num : Arithmetic N) (rows : List (NormalisedShot N)) (stats : Stats N)
      : Type 0 where
    pub counted : stats.shot_count ≡ length rows
    pub clubs_apart : HaveOwnClubs stats.by_club
    pub aggregates :
        All (λ a. a ≡ aggregate num (a.club_code, rows_of a.club_code rows)) stats.by_club
    pub complete :
        All (λ row. any (λ a. text_eq a.club_code (club_of_row row)) stats.by_club ≡ true) rows

  aggregates-HaveOwnClubs :
      (num : Arithmetic N) (groups : List (Group N))
      → AreApart groups
      → HaveOwnClubs (map (aggregate num) groups)
  unfolding aggregate
  aggregates-HaveOwnClubs num [] h = tt
  aggregates-HaveOwnClubs num ((club, rows) ∷ groups) h = (
    map-All (λ g. text_eq club g.0 ≡ false) (λ b. text_eq club b.club_code ≡ false) (aggregate num)
        (λ (c, rs) k. k) groups h.0,
    aggregates-HaveOwnClubs num groups h.1,
  )

  any-aggregate :
      (num : Arithmetic N) (club : Text) (groups : List (Group N))
      → any (λ a. text_eq a.club_code club) (map (aggregate num) groups) ≡ has_group club groups
  unfolding aggregate
  any-aggregate num club [] = refl
  any-aggregate num club ((c, rows) ∷ groups) =
      ap (λ b. text_eq c club || b) (any-aggregate num club groups)

  group-aggregate :
      (num : Arithmetic N) (rows : List (NormalisedShot N)) (g : Group N)
      → g.1 ≡ rows_of g.0 rows
      → aggregate num g
        ≡ aggregate num ((aggregate num g).club_code, rows_of (aggregate num g).club_code rows)
  unfolding aggregate
  group-aggregate num rows (club, shots) h = ap (λ r. aggregate num (club, r)) h

  stats_of-IsByClub :
      (num : Arithmetic N) (label : Text) (since until : ℤ) (club : Option Text)
      (rows : List (NormalisedShot N))
      → IsByClub num rows (stats_of num label since until club rows)
  unfolding stats_of
  stats_of-IsByClub num label since until club rows =
      let grouped : AreGroups rows (group_rows rows []) =
        group_rows-AreGroups [] rows [] (record { apart = tt; filled = tt; complete = tt }) in
      record {
        counted = refl;
        clubs_apart = aggregates-HaveOwnClubs num (group_rows rows []) grouped.apart;
        aggregates =
            map-All (λ g. g.1 ≡ rows_of g.0 rows) _ (aggregate num) (group-aggregate num rows)
              (group_rows rows []) grouped.filled;
        complete =
            All-map _ _ (λ row k. any-aggregate num (club_of_row row) (group_rows rows []) ∙ k) rows
              grouped.complete;
      }

sql_club-ok : (club known : Option Text) → sql_club club ≡ ok known → known ≡ club
sql_club-ok none known h = cc
sql_club-ok (some []) known h = cc
sql_club-ok (some (c ∷ t)) known h = cc

ok-injective : {A : Type 0} {a b : A} → ◌≡◌ {A = Answer A} (ok a) (ok b) → a ≡ b
ok-injective h = cc

abbrev pub of_user : Text → ShotsFilter
of_user user = record { canonical_user_id = some user; vendor = none; vendor_user_id = none }

module _ {N : Type 0} (num : Arithmetic N) where
  length-counted_rows :
      (filter : ShotsFilter) (since until : ℤ) (club : Option Text) (rows : List (NormalisedShot N))
      → length (counted_rows filter since until club rows) ≤ 10000
  unfolding counted_rows
  length-counted_rows filter since until club rows = omega (
    arith,
    length-take max_stats_rows (
        order_by (λ row. pos 0 -ℤ row.captured_at_utc)
          (keep (counts filter since until club) rows)),
  )

  -- The statistics of the rows of a user in the window that they name, as the database reads its
  -- bounds, and of no more rows than the cap.
  abbrev pub IsCounted : Texts → Text → Option Text → List (NormalisedShot N) → Stats N → Type 0
  IsCounted texts user club rows stats =
      (from to : ℤ) × (texts.instant (texts.iso stats.since) ≡ some from)
      × (texts.instant (texts.iso stats.until) ≡ some to)
      × IsByClub num (counted_rows (of_user user) from to club rows) stats
      × (stats.shot_count ≤ 10000)

  counted_rows-IsCounted :
      (texts : Texts) (user : Text) (since until from to : ℤ) (asked club : Option Text)
      (rows : List (NormalisedShot N))
      → club ≡ asked
      → texts.instant (texts.iso since) ≡ some from
      → texts.instant (texts.iso until) ≡ some to
      → IsCounted texts user asked rows
          (stats_of num user since until asked (counted_rows (of_user user) from to club rows))
  unfolding stats_of
  counted_rows-IsCounted texts user since until from to asked club rows same read read' =
      let counted = counted_rows (of_user user) from to club rows in
      (
        from,
        to,
        read,
        read',
        subst
            (λ c.
              IsByClub num (counted_rows (of_user user) from to c rows)
                (stats_of num user since until asked counted))
            same (stats_of-IsByClub num user since until asked counted),
        length-counted_rows (of_user user) from to club rows,
      )

  answered-IsCounted :
      (texts : Texts) (user : Text) (s u from to : ℤ) (asked club : Option Text)
      (filter : ShotsFilter) (rows : List (NormalisedShot N)) (stats : Stats N)
      → sql_club asked ≡ ok club
      → sql_instant texts (texts.iso s) ≡ ok from
      → sql_instant texts (texts.iso u) ≡ ok to
      → sql_filter (of_user user) ≡ ok filter
      → ◌≡◌ {A = Answer (Stats N)}
          (ok (stats_of num user s u asked (counted_rows filter from to club rows)))
          (ok stats)
      → IsCounted texts user asked rows stats
  answered-IsCounted texts user s u from to asked club filter rows stats known read read' taken
        made =
      subst (IsCounted texts user asked rows)
        (ap (λ w. stats_of num user s u asked (counted_rows w from to club rows))
            (sym (sql_filter-ok (of_user user) filter taken))
          ∙ ok-injective made)
        (counted_rows-IsCounted texts user s u from to asked club rows
          (sql_club-ok asked club known) (sql_instant-ok texts (texts.iso s) from read)
          (sql_instant-ok texts (texts.iso u) to read'))

-- Statistics that are answered for a user are those of the rows that the query counts in the
-- window that they name, as the database reads its bounds, of which there are at most 10000.
-- `shot_count` is their number, the clubs of `by_club` are pairwise different, each aggregate
-- is the one of the counted rows of its club in their order, and the club of every counted row
-- has one.
pub get_stats-IsByClub :
    (texts : Texts) {N : Type 0} (num : Arithmetic N) (user : Text) (query : StatsQuery) (now : ℤ)
    (db : Database N) (stats : Stats N)
    → get_stats texts num user query now db ≡ ok stats
    → IsCounted num texts user query.club db.shots stats
unfolding get_stats execute_stats_query
get_stats-IsByClub texts {N} num user query now db stats h =
    let made : ℤ → ℤ → Option Text → ℤ → ℤ → ShotsFilter → Stats N = λ s u club from to filter.
      stats_of num user s u query.club (counted_rows filter from to club db.shots) in
    let last : ℤ → ℤ → Option Text → ℤ → ℤ → Answer (Stats N) = λ s u club from to.
      sql_filter (of_user user) >>= λ filter. ok (made s u club from to filter) in
    let seventh : ℤ → ℤ → Option Text → ℤ → Answer (Stats N) =
      λ s u club from. sql_instant texts (texts.iso u) >>= λ to. last s u club from to in
    let sixth : ℤ → ℤ → Option Text → Answer (Stats N) =
      λ s u club. sql_instant texts (texts.iso s) >>= λ from. seventh s u club from in
    let fifth : ℤ → ℤ → Answer (Stats N) = λ s u. sql_club query.club >>= λ club. sixth s u club in
    let fourth : ℤ → ℤ → Answer (Stats N) =
      λ s u. check_club (truthy query.club) >>= λ known. fifth s u in
    let third : ℤ → ℤ → Answer (Stats N) =
      λ s u. check_window texts s u >>= λ checked. fourth s u in
    let second : ℤ → Answer (Stats N) =
      λ s. window_bound texts (truthy query.until) (codes "until") now >>= λ u. third s u in
    let (s, _, h1) =
      bind-ok (window_bound texts (truthy query.since) (codes "since") (now -ℤ default_window))
        second stats h in
    let (u, _, h2) =
      bind-ok (window_bound texts (truthy query.until) (codes "until") now) (λ u. third s u) stats
        h1 in
    let (_, _, h3) = bind-ok (check_window texts s u) (λ checked. fourth s u) stats h2 in
    let (_, _, h4) = bind-ok (check_club (truthy query.club)) (λ known. fifth s u) stats h3 in
    let (club, same, h5) = bind-ok (sql_club query.club) (λ club. sixth s u club) stats h4 in
    let (from, read, h6) =
      bind-ok (sql_instant texts (texts.iso s)) (λ from. seventh s u club from) stats h5 in
    let (to, read', h7) =
      bind-ok (sql_instant texts (texts.iso u)) (λ to. last s u club from to) stats h6 in
    let (filter, taken, h8) =
      bind-ok (sql_filter (of_user user)) (λ filter. ok (made s u club from to filter)) stats h7 in
    answered-IsCounted num texts user s u from to query.club club filter db.shots stats same read
      read' taken h8
