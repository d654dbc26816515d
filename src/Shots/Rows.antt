-- ===== src/Shots/Rows.antt =====
-- src/shots/shots.service.ts: the rows that a query selects.
use pureplay_analytics_inges.Prelude.{
  ◌||◌, some-injective, ◌≡◌, ◌≢◌, refl, ap, Bool, true, false, Option, none, some, List, [], ◌∷◌,
  Text, text_eq_iff, truthy, ℤ, ◌≤ℤ◌, keep-All, keep-All_of, All, In, arith,
}
use pureplay_analytics_inges.Domain.Shot.{NormalisedShot}
use pureplay_analytics_inges.Database.Sorted.{sort_rows-All}
use pureplay_analytics_inges.Ingestion.ContentHash.{club_value_text}
use pureplay_analytics_inges.Ingestion.Repository.{without_payload}
use pureplay_analytics_inges.Shots.Query.{
  sql_instant, sql_text, sql_filter, Texts, ShotsFilter, ShotsPage, Answer, ok, ◌>>=◌,
  invalid_cursor, invalid_date, unknown_vendor, unknown_club_code, database_error, check_club,
  row_before, matches, where_text, is_missing, selected, place_of, below_cursor,
}

pub bind-ok :
    {A B : Type 0} (a : Answer A) (f : A → Answer B) (b : B)
    → (a >>= f) ≡ ok b
    → (x : A) × (a ≡ ok x) × (f x ≡ ok b)
bind-ok (ok x) f b h = (x, refl, h)
bind-ok invalid_cursor f b h = cc
bind-ok (invalid_date field value) f b h = cc
bind-ok (unknown_vendor vendor) f b h = cc
bind-ok (unknown_club_code club) f b h = cc
bind-ok database_error f b h = cc

-- A club that is asked for, and a row that is no near duplicate where those are left out.
abbrev pub IsOfClub : Option Text → Text → Type 0
IsOfClub none club = Unit
IsOfClub (some asked) club = club ≡ asked

abbrev pub IsOriginal : Bool → Option Text → Type 0
IsOriginal true duplicate_of = Unit
IsOriginal false duplicate_of = duplicate_of ≡ none

-- A row of the table that a query of a user may show in a window, whose bounds are as the database
-- reads the ISO texts that the page names.
pub record IsShown {N : Type 0} (texts : Texts) (rows : List (NormalisedShot N)) (user : Text)
    (club : Option Text) (page : ShotsPage N) (item : NormalisedShot N) : Type 0 where
  pub row : NormalisedShot N
  pub is_stored : In row rows
  pub is_item : item ≡ without_payload row
  pub is_of_user : row.canonical_user_id ≡ some user
  pub from : ℤ
  pub reads_since : texts.instant (texts.iso page.since) ≡ some from
  pub is_since : from ≤ℤ row.captured_at_utc
  pub to : ℤ
  pub reads_until : texts.instant (texts.iso page.until) ≡ some to
  pub is_until : row.captured_at_utc ≤ℤ to
  pub is_of_club : IsOfClub club (club_value_text row.club_code)
  pub is_original : IsOriginal page.include_near_duplicates row.duplicate_of

where_text-some :
    (t : Text) (column : Option Text) → where_text (some t) column ≡ true → column ≡ some t
where_text-some t none h = cc
where_text-some t (some u) h = ap some ((text_eq_iff u t).0 h)

pub check_club-ok : (club known : Option Text) → check_club club ≡ ok known → known ≡ club
unfolding check_club
check_club-ok none known h = cc
check_club-ok (some club) known h = ground arith

where_text-IsOfClub :
    (club : Option Text) (t : Text) → where_text club (some t) ≡ true → IsOfClub club t
where_text-IsOfClub none t h = tt
where_text-IsOfClub (some c) t h = some-injective (where_text-some c (some t) h)

near-IsOriginal :
    (near : Bool) (o : Option Text) → (near || is_missing o) ≡ true → IsOriginal near o
near-IsOriginal true o h = tt
near-IsOriginal false none h = refl
near-IsOriginal false (some t) h = cc

module _ {N : Type 0} where
  pub matches-of_user :
      (user : Text) (since until : ℤ) (club : Option Text) (near : Bool) (row : NormalisedShot N)
      → user ≢ []
      → matches
          (record { canonical_user_id = some user; vendor = none; vendor_user_id = none })
          since
          until
          club
          near
          row
        ≡ true
      → (row.canonical_user_id ≡ some user)
        × (since ≤ℤ row.captured_at_utc)
        × (row.captured_at_utc ≤ℤ until)
        × IsOfClub club (club_value_text row.club_code)
        × IsOriginal near row.duplicate_of
  unfolding matches truthy
  matches-of_user [] since until club near row u h = absurd (u refl)
  matches-of_user (k ∷ user) since until club near row u h = (
    ground (arith, where_text-some (k ∷ user) row.canonical_user_id),
    ground arith,
    ground arith,
    where_text-IsOfClub club (club_value_text row.club_code) (ground arith),
    near-IsOriginal near row.duplicate_of (ground arith),
  )

  pub selected-All :
      (texts : Texts) (filter : ShotsFilter) (since until : ℤ) (club : Option Text) (near : Bool)
      (cursor : Option (ℤ × Text)) (rows : List (NormalisedShot N))
      → All
          (λ row. (matches filter since until club near row ≡ true) × In row rows)
          (selected texts filter since until club near cursor rows)
  unfolding selected
  selected-All texts filter since until club near cursor rows =
      sort_rows-All (row_before texts) _ _ (
        keep-All_of _ (λ row. below_cursor texts (place_of row) cursor) _
          (keep-All (matches filter since until club near) rows))

pub sql_instant-ok :
    (texts : Texts) (t : Text) (u : ℤ) → sql_instant texts t ≡ ok u → texts.instant t ≡ some u
unfolding sql_instant
sql_instant-ok texts t u h = ground arith

pub sql_filter-ok : (filter known : ShotsFilter) → sql_filter filter ≡ ok known → known ≡ filter
unfolding sql_filter
sql_filter-ok filter known h =
    let (_, _, h1) =
      bind-ok (sql_text filter.canonical_user_id)
        (λ user. sql_text filter.vendor_user_id >>= λ vendor_user. ok filter) known h in
    let (_, _, h2) = bind-ok (sql_text filter.vendor_user_id) (λ vendor_user. ok filter) known h1 in
    cc h2

-- What a query that is answered has read before its rows.
pub chain-ok :
    {P : Type 0} (texts : Texts) (s u : Answer ℤ) (c : Answer (Option Text))
    (p : Answer (Option (ℤ × Text))) (w : Answer ShotsFilter)
    (f : ℤ → ℤ → Option Text → Option (ℤ × Text) → ℤ → ℤ → ShotsFilter → Answer P) (page : P)
    → (s >>= λ s'. u >>= λ u'. c >>= λ c'. p >>= λ p'. sql_instant texts (texts.iso s') >>= λ from.
        sql_instant texts (texts.iso u') >>= λ to. w >>= λ w'. f s' u' c' p' from to w')
      ≡ ok page
    → (s' : ℤ) × (u' : ℤ) × (c' : Option Text) × (p' : Option (ℤ × Text)) × (from : ℤ) × (to : ℤ)
      × (w' : ShotsFilter) × (c ≡ ok c')
      × (texts.instant (texts.iso s') ≡ some from)
      × (texts.instant (texts.iso u') ≡ some to)
      × (w ≡ ok w')
      × (f s' u' c' p' from to w' ≡ ok page)
chain-ok {P} texts s u c p w f page h =
    let last : ℤ → ℤ → Option Text → Option (ℤ × Text) → ℤ → ℤ → Answer P =
      λ s' u' c' p' from to. w >>= λ w'. f s' u' c' p' from to w' in
    let fifth : ℤ → ℤ → Option Text → Option (ℤ × Text) → ℤ → Answer P =
      λ s' u' c' p' from. sql_instant texts (texts.iso u') >>= λ to. last s' u' c' p' from to in
    let fourth : ℤ → ℤ → Option Text → Option (ℤ × Text) → Answer P =
      λ s' u' c' p'. sql_instant texts (texts.iso s') >>= λ from. fifth s' u' c' p' from in
    let third : ℤ → ℤ → Option Text → Answer P = λ s' u' c'. p >>= λ p'. fourth s' u' c' p' in
    let second : ℤ → ℤ → Answer P = λ s' u'. c >>= λ c'. third s' u' c' in
    let (s', _, h1) = bind-ok s (λ s'. u >>= λ u'. second s' u') page h in
    let (u', _, h2) = bind-ok u (λ u'. second s' u') page h1 in
    let (c', is_club, h3) = bind-ok c (λ c'. third s' u' c') page h2 in
    let (p', _, h4) = bind-ok p (λ p'. fourth s' u' c' p') page h3 in
    let (from, read, h5) =
      bind-ok (sql_instant texts (texts.iso s')) (λ from. fifth s' u' c' p' from) page h4 in
    let (to, read', h6) =
      bind-ok (sql_instant texts (texts.iso u')) (λ to. last s' u' c' p' from to) page h5 in
    let (w', is_filter, h7) = bind-ok w (λ w'. f s' u' c' p' from to w') page h6 in
    (
      s',
      u',
      c',
      p',
      from,
      to,
      w',
      is_club,
      sql_instant-ok texts _ from read,
      sql_instant-ok texts _ to read',
      is_filter,
      h7,
    )
