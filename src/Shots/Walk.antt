-- ===== src/Shots/Walk.antt =====
-- src/shots/shots.service.ts: what following the cursors of the pages gives.
use mathlib.Core.Path.{subst}
use mathlib.Core.List.{append_assoc, map-append}
use pureplay_analytics_inges.Prelude.{
  take-Ends, Ends-split, length-drop, ℕ, zero, suc, ◌<◌, ◌≡◌, refl, sym, ap, ◌∙◌, Bool, false,
  Option, none, some, List, [], ◌∷◌, ◌++◌, map, keep-All_of, All-middle, Text, codes, truthy,
  or_else, ℤ, ◌-ℤ◌, leb, leb→le, length, take, drop, take-append-drop, All, arith, inl, inr,
  Bool-cases,
}
use pureplay_analytics_inges.Domain.Shot.{NormalisedShot}
use pureplay_analytics_inges.Database.{Database}
use pureplay_analytics_inges.Database.Sorted.{sort_rows-All}
use pureplay_analytics_inges.Ingestion.Repository.{without_payload}
use pureplay_analytics_inges.Ingestion.Repository.Upsert.{IsUnique}
use pureplay_analytics_inges.Shots.{execute_query}
use pureplay_analytics_inges.Shots.Query.{
  Texts, ShotsQuery, ShotsFilter, ShotsPage, Answer, ok, default_window, cursor_place, place_of,
  selected, encode_cursor, row_before, matches,
}
use pureplay_analytics_inges.Shots.Listing.{
  IsFaithful, HasPlace, IsTaken, sql_instant-iso, sql_filter-taken, listing, selected-behind,
  selected-none, cursor_place-encode_cursor,
}
use pureplay_analytics_inges.Shots.Client.{
  follow, follow-end, follow-more, page, page-last, page-more, window_bound-given, one_more, Asks,
}

module _ (texts : Texts) (faithful : IsFaithful texts) {N : Type 0} (filter : ShotsFilter)
    (query : ShotsQuery) (db : Database N) (clock : ℕ → ℤ) (since until : ℤ) (club : Option Text)
    (limit : ℕ) (asks : Asks texts query since until club limit) (unique : IsUnique db.shots)
    (taken : IsTaken filter) (places : All (λ row. HasPlace row) db.shots) where
  abbrev near : Bool
  near = or_else query.include_near_duplicates false

  abbrev rows_at : Option (ℤ × Text) → List (NormalisedShot N)
  rows_at place = selected texts filter since until club near place db.shots

  execute_query-page :
      (now : ℤ) (cursor : Option Text) (place : Option (ℤ × Text))
      → cursor_place texts (truthy cursor) ≡ ok place
      → execute_query texts filter (record query { cursor = cursor }) now db
        ≡ ok (page texts (suc limit) since until query.club near (rows_at place))
  unfolding execute_query
  execute_query-page now cursor place h =
      let since_is =
        window_bound-given texts query.since asks.since_text (codes "since") (now -ℤ default_window)
          since asks.has_since asks.since_read in
      let until_is =
        window_bound-given texts query.until asks.until_text (codes "until") now until
          asks.has_until asks.until_read in
      rw
        (
          since_is,
          until_is,
          asks.club_known,
          h,
          sql_instant-iso texts faithful since asks.since_year,
          sql_instant-iso texts faithful until asks.until_year,
          sql_filter-taken filter taken,
          asks.limit_given,
          one_more (suc limit),
        )
        refl

  abbrev all_rows : List (NormalisedShot N)
  all_rows = listing texts filter since until club near db.shots

  all_rows-HasPlace : All (λ row. HasPlace row) all_rows
  all_rows-HasPlace =
      sort_rows-All (row_before texts) (λ row. HasPlace row) _
        (keep-All_of (λ row. HasPlace row) (matches filter since until club near) db.shots places)

  abbrev get : ShotsQuery → ℤ → Answer (ShotsPage N)
  get q now = execute_query texts filter q now db

  abbrev Follows : ℕ → Option Text → List (NormalisedShot N) → Type 0
  Follows fuel cursor rest = follow get clock fuel query cursor ≡ some (map without_payload rest)

  -- One request, whose page starts at the first row of `rest`.
  follow-step :
      (fuel : ℕ) (cursor : Option Text) (front rest : List (NormalisedShot N))
      → all_rows ≡ front ++ rest
      → execute_query texts filter (record query { cursor = cursor }) (clock fuel) db
        ≡ ok (page texts (suc limit) since until query.club near rest)
      → ((row : NormalisedShot N) (before later : List (NormalisedShot N))
          → all_rows ≡ before ++ row ∷ later
          → length later < length rest
          → Follows fuel (some (encode_cursor texts row)) later)
      → Follows (suc fuel) cursor rest
  follow-step fuel cursor front rest split answer next =
      let answered = page texts (suc limit) since until query.club near rest in
      elim (Bool-cases (leb (length rest) (suc limit))) [
        | inl e ↦
            let (ends, items) =
              page-last texts (suc limit) since until query.club near rest (leb→le _ _ e) in
            follow-end get clock fuel query cursor answered answer ends ∙ ap some items
        | inr e ↦
            let long : suc limit < length rest = ground arith in
            let last = take-Ends limit rest (omega arith) in
            let later = drop (suc limit) rest in
            let (more, items) =
              page-more texts (suc limit) since until query.club near rest last.end long
                last.is_last in
            let place : all_rows ≡ (front ++ last.front) ++ last.end ∷ later =
              split
              ∙ ap (λ r. front ++ r) (Ends-split limit rest last)
              ∙ sym (append_assoc front last.front (last.end ∷ later)) in
            let shorter : length later < length rest =
              omega (arith, length-drop (suc limit) rest) in
            follow-more get clock fuel query cursor answered (encode_cursor texts last.end)
              (map without_payload later) answer more
              (next last.end (front ++ last.front) later place shorter)
            ∙ ap some (
                ap (λ r. r ++ map without_payload later) items
                ∙ sym (map-append without_payload (take (suc limit) rest) later)
                ∙ ap (map without_payload) (take-append-drop (suc limit) rest))
      ]

  follow-from :
      (fuel : ℕ) (row : NormalisedShot N) (before later : List (NormalisedShot N))
      → all_rows ≡ before ++ row ∷ later
      → length later < fuel
      → Follows fuel (some (encode_cursor texts row)) later
  follow-from zero row before later split h = absurd (omega arith)
  follow-from (suc fuel) row before later split h =
      let cursor = some (encode_cursor texts row) in
      let placed : HasPlace row =
        All-middle (λ r. HasPlace r) before row later
          (subst (All (λ r. HasPlace r)) split all_rows-HasPlace) in
      let answer =
        execute_query-page (clock fuel) cursor (some (place_of row))
          (cursor_place-encode_cursor texts faithful row placed) in
      follow-step fuel cursor (before ++ row ∷ []) later
        (split ∙ sym (append_assoc before (row ∷ []) later))
        (subst
          (λ l.
            execute_query texts filter (record query { cursor = cursor }) (clock fuel) db
            ≡ ok (page texts (suc limit) since until query.club near l))
          (selected-behind texts faithful filter since until club near db.shots unique before row
            later split)
          answer)
        (λ r b l s k. follow-from fuel r b l s (omega arith))

  -- On a table whose keys and ids are unique, with ids that are not empty and instants of the
  -- years 1 to 9999, ids and filter without U+0000, a client that asks with a given window of
  -- those years, a known club and a page size of at least one, and follows the cursors, gets
  -- all matching rows without their raw payloads, newest first, each once, within one request
  -- more than there are rows. Cursors are assumed to be read back as written, ISO texts as
  -- their instants, and the collation to be a strict order that compares any two ids.
  pub follow-execute_query :
      (fuel : ℕ)
      → length all_rows < fuel
      → follow (λ q now. execute_query texts filter q now db) clock fuel query none
        ≡ some (map without_payload all_rows)
  follow-execute_query zero h = absurd (omega arith)
  follow-execute_query (suc fuel) h =
      follow-step fuel none [] all_rows refl
        (subst
          (λ l.
            execute_query texts filter (record query { cursor = none }) (clock fuel) db
            ≡ ok (page texts (suc limit) since until query.club near l))
          (selected-none texts faithful filter since until club near db.shots unique)
          (execute_query-page (clock fuel) none none (unfold cursor_place truthy in refl)))
        (λ r b l s k. follow-from fuel r b l s (omega arith))
