-- ===== src/Migrations.antt =====
-- src/shared/kysely/migration-runner.ts: the splitting of an SQL file, and the run of the files.
pub mod Pieces
use pureplay_analytics_inges.Prelude.{
  ℕ, ◌≡◌, Bool, true, false, ◌&&◌, Option, none, some, List, [], ◌∷◌, ◌++◌, Text, codes, is_empty,
  ◌==◌, head?, if◌then◌else◌,
}
use pureplay_analytics_inges.Domain.Club.{trim}

abbrev pub newline : ℕ
newline = 10

-- `inDollarQuote` and `inStringLiteral`, the loop that skips a comment, and the skip (`i++`) of the
-- second character of a pair, with the mode after it.
pub data Mode : Type 0 where
  plain dollar_quote string_literal comment : Mode
  skip_into : Mode → Mode

pub record Turn : Type 0 where
  pub mode : Mode
  pub current : Text
  pub terminated : Bool

abbrev pub is_next : ℕ → Option ℕ → Bool
is_next c none = false
is_next c (some d) = c == d

-- The body of the loop at a character, with the character after it.
unfoldable pub turn : Mode → Text → ℕ → Option ℕ → Turn
turn dollar_quote current c next =
    if c == b'$' && is_next b'$' next
    then record {
      mode = skip_into plain;
      current = current ++ b'$' ∷ b'$' ∷ [];
      terminated = false;
    }
    else record { mode = dollar_quote; current = current ++ c ∷ []; terminated = false }
turn string_literal current c next =
    if c == 39
    then (if is_next 39 next
        then record {
          mode = skip_into string_literal;
          current = (current ++ c ∷ []) ++ 39 ∷ [];
          terminated = false;
        }
        else record { mode = plain; current = current ++ c ∷ []; terminated = false })
    else record { mode = string_literal; current = current ++ c ∷ []; terminated = false }
turn comment current c next =
    if c == newline
    then record { mode = plain; current = current; terminated = false }
    else record { mode = comment; current = current; terminated = false }
turn (skip_into mode) current c next = record { mode = mode; current = current; terminated = false }
turn plain current c next =
    if c == b'$' && is_next b'$' next
    then record {
      mode = skip_into dollar_quote;
      current = current ++ b'$' ∷ b'$' ∷ [];
      terminated = false;
    }
    else if c == 39
    then record { mode = string_literal; current = current ++ c ∷ []; terminated = false }
    else if c == b'-' && is_next b'-' next
    then record { mode = comment; current = current; terminated = false }
    else if c == b';'
    then record { mode = plain; current = current; terminated = true }
    else record { mode = plain; current = current ++ c ∷ []; terminated = false }

-- `const stmt = current.trim(); if (stmt.length > 0) statements.push(stmt);`
unfoldable pub pushed : Text → List Text
pushed current = if is_empty (trim current) then [] else trim current ∷ []

-- The statements that the loop pushes from a state on.
unfoldable pub scan : Mode → Text → Text → List Text
scan mode current [] = pushed current
scan mode current (c ∷ rest) =
    let t = turn mode current c (head? rest) in
    (if t.terminated then pushed t.current else [])
    ++ scan t.mode (if t.terminated then [] else t.current) rest

unfoldable pub split_statements : Text → List Text
split_statements content = scan plain [] content

-- A database as the driver sees it: `execute` throws or leaves a new state.
module _ {D : Type 0} (execute : Text → D → Option D) where
  abbrev pub and_then : Option D → (D → Option D) → Option D
  and_then none f = none
  and_then (some d) f = f d

  unfoldable pub execute_all : List Text → D → Option D
  execute_all [] d = some d
  execute_all (statement ∷ rest) d = and_then (execute statement d) (λ d'. execute_all rest d')

  unfoldable pub execute_sql_file : Text → D → Option D
  execute_sql_file content d = execute_all (split_statements content) d

  -- `read` gives the content of a file of the migration directory.
  unfoldable pub run_migrations : (Text → Text) → D → Option D
  run_migrations read d =
      and_then
        (and_then (execute_sql_file (read (codes "001_init.sql")) d)
          (λ d1. execute_sql_file (read (codes "002_club_data.sql")) d1))
        (λ d2. execute_sql_file (read (codes "003_identity_perf.sql")) d2)
