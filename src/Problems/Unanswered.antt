-- ===== src/Problems/Unanswered.antt =====
-- When src/shots/shots.service.ts and src/stats/stats.service.ts end with an error of the database.
use pureplay_analytics_inges.Prelude.{
  ◌≡◌, refl, ◌⊎◌, inl, inr, true, false, Option, none, some, List, [], ◌∷◌, Text, codes, truthy,
  or_else, ℤ, pos, negsuc, ltb_ℤ, ◌+ℤ◌, ◌-ℤ◌, arith, text_before, Option-cases, Bool-cases,
}
use pureplay_analytics_inges.Domain.Shot.{NormalisedShot, as_vendor}
use pureplay_analytics_inges.Database.{Database}
use pureplay_analytics_inges.Shots.{execute_query, list_by_vendor_user, returned, page_of}
use pureplay_analytics_inges.Shots.Query.{
  sql_instant, sql_filter, Texts, ShotsQuery, ShotsFilter, ShotsPage, Answer, ok, ◌>>=◌,
  database_error, default_window, page_limit, sql_limit, window_bound, cursor_place, check_club,
  selected,
}
use pureplay_analytics_inges.Stats.{
  StatsQuery, Stats, sql_club, check_window, execute_stats_query, get_stats_by_vendor_user,
  stats_of, counted_rows,
}
use pureplay_analytics_inges.Stats.Numbers.{Arithmetic}
use pureplay_analytics_inges.Problems.Refused.{
  IsRefusedPage, IsRefusedStats, ok-answered, bind-error, bind-read, window_bound-answered,
  check_club-answered, sql_instant-error, sql_filter-error, cursor_place-error, unread_since,
  unread_until,
}

below_minus_one : (n : ℤ) → ltb_ℤ (n +ℤ pos 1) (pos 0) ≡ true → ltb_ℤ n (negsuc 0) ≡ true
unfolding ◌+ℤ◌
below_minus_one n h = ground arith

module _ {N : Type 0} where
  returned-error :
      (m : ℤ) (page : List (NormalisedShot N) → ShotsPage N) (rows : List (NormalisedShot N))
      → returned page (sql_limit m rows) ≡ database_error
      → ltb_ℤ m (pos 0) ≡ true
  returned-error (pos n) page rows h = absurd (ok-answered h)
  returned-error (negsuc n) page rows h = ground arith

  pub execute_query-error :
      (texts : Texts) (user : Text) (filter : ShotsFilter) (query : ShotsQuery) (now : ℤ)
      (db : Database N)
      → (filter.canonical_user_id ≡ some user) ⊎ (filter.canonical_user_id ≡ none)
      → (filter.vendor_user_id ≡ some user) ⊎ (filter.vendor_user_id ≡ none)
      → execute_query texts filter query now db ≡ database_error
      → IsRefusedPage texts user query now
  unfolding execute_query
  execute_query-error texts user filter query now db c v h =
      let near = or_else query.include_near_duplicates false in
      let limit = page_limit query.limit in
      let place = cursor_place texts (truthy query.cursor) in
      let from_default = now -ℤ default_window in
      let ninth : ℤ
          → ℤ
          → Option Text
          → Option (ℤ × Text)
          → ℤ
          → ℤ
          → ShotsFilter
          → Answer (ShotsPage N) =
        λ s u club cursor from to w.
          returned (page_of texts limit s u query.club near)
            (sql_limit (limit +ℤ pos 1) (selected texts w from to club near cursor db.shots)) in
      let eighth : ℤ → ℤ → Option Text → Option (ℤ × Text) → ℤ → ℤ → Answer (ShotsPage N) =
        λ s u club cursor from to. sql_filter filter >>= λ w. ninth s u club cursor from to w in
      let seventh : ℤ → ℤ → Option Text → Option (ℤ × Text) → ℤ → Answer (ShotsPage N) =
        λ s u club cursor from.
          sql_instant texts (texts.iso u) >>= λ to. eighth s u club cursor from to in
      let sixth : ℤ → ℤ → Option Text → Option (ℤ × Text) → Answer (ShotsPage N) =
        λ s u club cursor.
          sql_instant texts (texts.iso s) >>= λ from. seventh s u club cursor from in
      let fifth : ℤ → ℤ → Option Text → Answer (ShotsPage N) =
        λ s u club. place >>= λ cursor. sixth s u club cursor in
      let fourth : ℤ → ℤ → Answer (ShotsPage N) =
        λ s u. check_club (truthy query.club) >>= λ club. fifth s u club in
      let third : ℤ → Answer (ShotsPage N) =
        λ s. window_bound texts (truthy query.until) (codes "until") now >>= λ u. fourth s u in
      let (s, is_since, h1) =
        bind-read (window_bound texts (truthy query.since) (codes "since") from_default) third
          (window_bound-answered texts (truthy query.since) (codes "since") from_default) h in
      let (u, is_until, h2) =
        bind-read (window_bound texts (truthy query.until) (codes "until") now) (λ u. fourth s u)
          (window_bound-answered texts (truthy query.until) (codes "until") now) h1 in
      let (club, _, h3) =
        bind-read (check_club (truthy query.club)) (λ club. fifth s u club)
          (check_club-answered (truthy query.club)) h2 in
      elim (bind-error place (λ cursor. sixth s u club cursor) h3) [
        | inl e ↦ IsRefusedPage.refused_cursor (cursor_place-error texts query.cursor e)
        | inr (cursor, _, h4) ↦
            elim (bind-error (sql_instant texts (texts.iso s))
              (λ from. seventh s u club cursor from) h4) [
                | inl e ↦
                    IsRefusedPage.unread_bound
                      (unread_since s is_since (sql_instant-error texts _ e))
                | inr (from, _, h5) ↦
                    elim (bind-error (sql_instant texts (texts.iso u))
                      (λ to. eighth s u club cursor from to) h5) [
                        | inl e ↦
                            IsRefusedPage.unread_bound
                              (unread_until u is_until (sql_instant-error texts _ e))
                        | inr (to, _, h6) ↦
                            elim (bind-error (sql_filter filter)
                              (λ w. ninth s u club cursor from to w) h6) [
                                | inl e ↦
                                    IsRefusedPage.nul_in_user (sql_filter-error user filter c v e)
                                | inr (_, _, e) ↦
                                    IsRefusedPage.negative_limit (
                                      below_minus_one limit (returned-error (limit +ℤ pos 1) _ _ e))
                              ]
                      ]
              ]
      ]

  pub list_by_vendor_user-error :
      (texts : Texts) (vendor user : Text) (query : ShotsQuery) (now : ℤ) (db : Database N)
      → list_by_vendor_user texts vendor user query now db ≡ database_error
      → IsRefusedPage texts user query now
  unfolding list_by_vendor_user
  list_by_vendor_user-error texts vendor user query now db h =
      elim (Option-cases (as_vendor vendor)) [
        | inl e ↦ absurd (cc (rw (e, list_by_vendor_user) at h))
        | inr (v, e) ↦
            execute_query-error texts user _ query now db (inr refl) (inl refl)
              (rw (e, list_by_vendor_user) at h)
      ]

sql_club-error : (club : Option Text) → sql_club club ≡ database_error → club ≡ some []
sql_club-error none h = cc
sql_club-error (some []) h = refl
sql_club-error (some (c ∷ t)) h = cc

check_window-answered :
    (texts : Texts) (since until : ℤ) → ¬ (check_window texts since until ≡ database_error)
check_window-answered texts since until h =
    elim (Bool-cases (text_before (texts.iso since) (texts.iso until))) [
      | inl e ↦ absurd (cc (rw (e, check_window) at h))
      | inr e ↦ absurd (cc (rw (e, check_window) at h))
    ]

module _ {N : Type 0} where
  pub execute_stats_query-error :
      (texts : Texts) (num : Arithmetic N) (user : Text) (filter : ShotsFilter) (label : Text)
      (query : StatsQuery) (now : ℤ) (db : Database N)
      → (filter.canonical_user_id ≡ some user) ⊎ (filter.canonical_user_id ≡ none)
      → (filter.vendor_user_id ≡ some user) ⊎ (filter.vendor_user_id ≡ none)
      → execute_stats_query texts num filter label query now db ≡ database_error
      → IsRefusedStats texts user query now
  unfolding execute_stats_query
  execute_stats_query-error texts num user filter label query now db c v h =
      let from_default = now -ℤ default_window in
      let last : ℤ → ℤ → Option Text → ℤ → ℤ → Answer (Stats N) = λ s u club from to.
        sql_filter filter >>= λ w.
        ok (stats_of num label s u query.club (counted_rows w from to club db.shots)) in
      let seventh : ℤ → ℤ → Option Text → ℤ → Answer (Stats N) =
        λ s u club from. sql_instant texts (texts.iso u) >>= λ to. last s u club from to in
      let sixth : ℤ → ℤ → Option Text → Answer (Stats N) =
        λ s u club. sql_instant texts (texts.iso s) >>= λ from. seventh s u club from in
      let fifth : ℤ → ℤ → Answer (Stats N) =
        λ s u. sql_club query.club >>= λ club. sixth s u club in
      let fourth : ℤ → ℤ → Answer (Stats N) =
        λ s u. check_club (truthy query.club) >>= λ known. fifth s u in
      let third : ℤ → ℤ → Answer (Stats N) =
        λ s u. check_window texts s u >>= λ checked. fourth s u in
      let second : ℤ → Answer (Stats N) =
        λ s. window_bound texts (truthy query.until) (codes "until") now >>= λ u. third s u in
      let (s, is_since, h1) =
        bind-read (window_bound texts (truthy query.since) (codes "since") from_default) second
          (window_bound-answered texts (truthy query.since) (codes "since") from_default) h in
      let (u, is_until, h2) =
        bind-read (window_bound texts (truthy query.until) (codes "until") now) (λ u. third s u)
          (window_bound-answered texts (truthy query.until) (codes "until") now) h1 in
      let (_, _, h3) =
        bind-read (check_window texts s u) (λ checked. fourth s u) (check_window-answered texts s u)
          h2 in
      let (_, _, h4) =
        bind-read (check_club (truthy query.club)) (λ known. fifth s u)
          (check_club-answered (truthy query.club)) h3 in
      elim (bind-error (sql_club query.club) (λ club. sixth s u club) h4) [
        | inl e ↦ IsRefusedStats.empty_club (sql_club-error query.club e)
        | inr (club, _, h5) ↦
            elim (bind-error (sql_instant texts (texts.iso s)) (λ from. seventh s u club from) h5) [
              | inl e ↦
                  IsRefusedStats.unread_bound
                    (unread_since s is_since (sql_instant-error texts _ e))
              | inr (from, _, h6) ↦
                  elim (bind-error (sql_instant texts (texts.iso u)) (λ to. last s u club from to)
                    h6) [
                      | inl e ↦
                          IsRefusedStats.unread_bound
                            (unread_until u is_until (sql_instant-error texts _ e))
                      | inr (to, _, h7) ↦ elim (bind-error (sql_filter filter) _ h7) [
                        | inl e ↦ IsRefusedStats.nul_in_user (sql_filter-error user filter c v e)
                        | inr (_, _, e) ↦ absurd (cc e)
                      ]
                    ]
            ]
      ]

  pub get_stats_by_vendor_user-error :
      (texts : Texts) (num : Arithmetic N) (vendor user : Text) (query : StatsQuery) (now : ℤ)
      (db : Database N)
      → get_stats_by_vendor_user texts num vendor user query now db ≡ database_error
      → IsRefusedStats texts user query now
  unfolding get_stats_by_vendor_user
  get_stats_by_vendor_user-error texts num vendor user query now db h =
      elim (Option-cases (as_vendor vendor)) [
        | inl e ↦ absurd (cc (rw (e, get_stats_by_vendor_user) at h))
        | inr (v, e) ↦
            execute_stats_query-error texts num user _ _ query now db (inr refl) (inl refl)
              (rw (e, get_stats_by_vendor_user) at h)
      ]
