-- ===== src/Stats/Groups.antt =====
-- src/stats/stats.service.ts: the rows by club.
use pureplay_analytics_inges.Prelude.{List, [], ◌∷◌, ◌++◌, Text, text_eq, if◌then◌else◌}
use pureplay_analytics_inges.Domain.Shot.{NormalisedShot}
use pureplay_analytics_inges.Ingestion.ContentHash.{club_value_text}

-- An entry of the Map, with its rows in the order in which they were pushed.
abbrev pub Group : Type 0 → Type 0
Group N = Text × List (NormalisedShot N)

module _ {N : Type 0} where
  abbrev pub club_of_row : NormalisedShot N → Text
  club_of_row row = club_value_text row.club_code

  -- `if (!byClub.has(club)) byClub.set(club, []); byClub.get(club).push(row)`
  unfoldable pub push_row : NormalisedShot N → List (Group N) → List (Group N)
  push_row row [] = (club_of_row row, row ∷ []) ∷ []
  push_row row ((club, rows) ∷ groups) =
      let rest = push_row row groups in
      if text_eq club (club_of_row row)
      then (club, rows ++ row ∷ []) ∷ groups
      else (club, rows) ∷ rest

  -- The loop over the rows, from the groups so far.
  unfoldable pub group_rows : List (NormalisedShot N) → List (Group N) → List (Group N)
  group_rows [] groups = groups
  group_rows (row ∷ rows) groups = group_rows rows (push_row row groups)
