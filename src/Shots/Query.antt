-- ===== src/Shots/Query.antt =====
-- src/shots/shots.service.ts: the conditions, the order and the cursors of the query for a page. An
-- instant stands for its ISO text.
use pureplay_analytics_inges.Prelude.{
  suc, ◌-◌, Bool, true, false, ◌&&◌, ◌||◌, Option, none, some, List, Text, text_eq, truthy, ℤ, pos,
  negsuc, leb_ℤ, ltb_ℤ, length, take, keep, any, ◌==◌, if◌then◌else◌,
}
use pureplay_analytics_inges.Domain.Club.{club_of}
use pureplay_analytics_inges.Domain.Shot.{NormalisedShot, Vendor, vendor_eq}
use pureplay_analytics_inges.Database.Sorted.{sort_rows}
use pureplay_analytics_inges.Ingestion.ContentHash.{club_value_text}

-- What the service takes from outside. `date` is the time of `new Date(text)`, `none` for NaN; `iso`
-- is the text of an instant, and `instant` what the database makes of a text as a time stamp;
-- `write_cursor` and `read_cursor` are base64url over JSON, where reading gives the two members that
-- may be missing, and `none` if it throws; `id_before` is the collation of the ids.
pub record Texts : Type 0 where
  pub date : Text → Option ℤ
  pub iso : ℤ → Text
  pub instant : Text → Option ℤ
  pub write_cursor : Text → Text → Text
  pub read_cursor : Text → Option (Option Text × Option Text)
  pub id_before : Text → Text → Bool

-- A `number` that `parseInt` may have given.
pub data Limit : Type 0 where
  nan : Limit
  number : ℤ → Limit

pub record ShotsQuery : Type 0 where
  pub since : Option Text
  pub until : Option Text
  pub club : Option Text
  pub cursor : Option Text
  pub limit : Option Limit
  pub include_near_duplicates : Option Bool

pub record ShotsFilter : Type 0 where
  pub canonical_user_id : Option Text
  pub vendor : Option Vendor
  pub vendor_user_id : Option Text

pub record ShotsPage (N : Type 0) : Type 0 where
  pub items : List (NormalisedShot N)
  pub next_cursor : Option Text
  pub has_more : Bool
  pub limit : ℤ
  pub since : ℤ
  pub until : ℤ
  pub club : Option Text
  pub include_near_duplicates : Bool

-- What a call ends with: a value, one of the domain errors, or an error of the database.
pub data Answer (A : Type 0) : Type 0 where
  ok : A → Answer A
  invalid_cursor : Answer A
  invalid_date : Text → Text → Answer A
  unknown_vendor : Text → Answer A
  unknown_club_code : Text → Answer A
  database_error : Answer A

module _ {A B : Type 0} where
  infixl 1 ◌>>=◌
  abbrev pub ◌>>=◌ : Answer A → (A → Answer B) → Answer B
  (ok a >>= f) = f a
  (invalid_cursor >>= f) = invalid_cursor
  (invalid_date field value >>= f) = invalid_date field value
  (unknown_vendor vendor >>= f) = unknown_vendor vendor
  (unknown_club_code club >>= f) = unknown_club_code club
  (database_error >>= f) = database_error

abbrev pub default_limit : ℤ
default_limit = pos 50

abbrev pub max_limit : ℤ
max_limit = pos 100

-- 30 days, in milliseconds.
abbrev pub default_window : ℤ
default_window = pos 2592000000

unfoldable pub page_limit : Option Limit → ℤ
page_limit none = default_limit
page_limit (some nan) = default_limit
page_limit (some (number n)) = if leb_ℤ n max_limit then n else max_limit

-- `LIMIT n`, which the database refuses for a negative number.
abbrev pub sql_limit : {A : Type 0} → ℤ → List A → Option (List A)
sql_limit (pos n) rows = some (take n rows)
sql_limit (negsuc n) rows = none

-- `rows.slice(0, n)`.
abbrev pub slice_to : {A : Type 0} → ℤ → List A → List A
slice_to (pos n) rows = take n rows
slice_to (negsuc n) rows = take (length rows - suc n) rows

-- An optional condition on a column that may be NULL.
abbrev pub where_text : Option Text → Option Text → Bool
where_text none column = true
where_text (some t) none = false
where_text (some t) (some u) = text_eq u t

abbrev pub where_vendor : Option Vendor → Vendor → Bool
where_vendor none column = true
where_vendor (some v) column = vendor_eq column v

abbrev pub is_missing : Option Text → Bool
is_missing none = true
is_missing (some t) = false

unfoldable pub check_club : Option Text → Answer (Option Text)
check_club none = ok none
check_club (some club) = elim (club_of club) [
  | some c ↦ ok (some club)
  | none ↦ unknown_club_code club
]

-- A text parameter of a query, which the database refuses if it has U+0000 in it.
abbrev pub has_nul : Text → Bool
has_nul = any (λ c. c == 0)

unfoldable pub sql_text : Option Text → Answer (Option Text)
sql_text none = ok none
sql_text (some t) = if has_nul t then database_error else ok (some t)

-- The texts that a filter makes parameters of the query.
unfoldable pub sql_filter : ShotsFilter → Answer ShotsFilter
sql_filter filter = sql_text filter.canonical_user_id >>= λ user.
    sql_text filter.vendor_user_id >>= λ vendor_user. ok filter

module _ {N : Type 0} where
  abbrev pub place_of : NormalisedShot N → ℤ × Text
  place_of row = (row.captured_at_utc, row.canonical_shot_id)

  -- The WHERE clauses but for that of the cursor.
  unfoldable pub matches : ShotsFilter → ℤ → ℤ → Option Text → Bool → NormalisedShot N → Bool
  matches filter since until club include_near_duplicates row =
      leb_ℤ since row.captured_at_utc
      && leb_ℤ row.captured_at_utc until
      && where_text (truthy filter.canonical_user_id) row.canonical_user_id
      && where_vendor filter.vendor row.vendor
      && where_text (truthy filter.vendor_user_id) (some row.vendor_user_id)
      && where_text club (some (club_value_text row.club_code))
      && (include_near_duplicates || is_missing row.duplicate_of)

module _ (texts : Texts) where
  unfoldable pub parse_window_date : Text → Text → Answer ℤ
  parse_window_date value field = elim (texts.date value) [
    | some t ↦ ok t
    | none ↦ invalid_date field value
  ]

  abbrev pub window_bound : Option Text → Text → ℤ → Answer ℤ
  window_bound none field default = ok default
  window_bound (some value) field default = parse_window_date value field

  -- A text that the database is to read as a time stamp.
  unfoldable pub sql_instant : Text → Answer ℤ
  sql_instant t = elim (texts.instant t) [ some u ↦ ok u | none ↦ database_error ]

  -- The two members of the cursor, neither of them missing or empty.
  unfoldable pub decode_cursor : Text → Answer (Text × Text)
  decode_cursor cursor = elim (texts.read_cursor cursor) [
    | none ↦ invalid_cursor
    | some (captured, id) ↦ elim (truthy captured) [
      | none ↦ invalid_cursor
      | some c ↦ elim (truthy id) [ none ↦ invalid_cursor | some i ↦ ok (c, i) ]
    ]
  ]

  -- The cursor of a query as the database reads it.
  unfoldable pub cursor_place : Option Text → Answer (Option (ℤ × Text))
  cursor_place none = ok none
  cursor_place (some cursor) = decode_cursor cursor >>= λ (captured, id).
      sql_instant captured >>= λ t. sql_text (some id) >>= λ known. ok (some (t, id))

  -- The row comparison `(t, i) < (u, j)` of SQL.
  abbrev pub is_below : ℤ × Text → ℤ × Text → Bool
  is_below (t, i) (u, j) = ltb_ℤ t u || (leb_ℤ t u && leb_ℤ u t && texts.id_before i j)

  abbrev pub below_cursor : ℤ × Text → Option (ℤ × Text) → Bool
  below_cursor place none = true
  below_cursor place (some cursor) = is_below place cursor

  module _ {N : Type 0} where
    -- `ORDER BY captured_at_utc DESC, canonical_shot_id DESC`.
    abbrev pub row_before : NormalisedShot N → NormalisedShot N → Bool
    row_before a b = is_below (place_of b) (place_of a)

    unfoldable pub selected :
        ShotsFilter
        → ℤ
        → ℤ
        → Option Text
        → Bool
        → Option (ℤ × Text)
        → List (NormalisedShot N)
        → List (NormalisedShot N)
    selected filter since until club include_near_duplicates cursor rows = sort_rows row_before (
        keep (λ row. below_cursor (place_of row) cursor)
          (keep (matches filter since until club include_near_duplicates) rows))

    abbrev pub encode_cursor : NormalisedShot N → Text
    encode_cursor last = texts.write_cursor (texts.iso last.captured_at_utc) last.canonical_shot_id

    abbrev pub next_cursor_of : Option (NormalisedShot N) → Option Text
    next_cursor_of none = none
    next_cursor_of (some last) = some (encode_cursor last)
