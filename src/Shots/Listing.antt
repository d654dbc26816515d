-- ===== src/Shots/Listing.antt =====
-- src/shots/shots.service.ts: the listing that the pages of a query are pages of.
use mathlib.Core.Path.{subst}
use pureplay_analytics_inges.Prelude.{
  ◌≡◌, refl, sym, ap, ◌∙◌, ◌≢◌, Bool, true, false, ◌||◌, Option, none, some, List, [], ◌∷◌, ◌++◌,
  Text, text_eq, truthy, ℤ, pos, negsuc, ◌≤ℤ◌, keep, All-map, arith,
}
use pureplay_analytics_inges.Domain.Shot.{NormalisedShot}
use pureplay_analytics_inges.Database.{has_id}
use pureplay_analytics_inges.Database.Sorted.{
  sort_rows, IsStrict, AreComparable, AreComparable-keep, IsSorted, sort_rows-IsSorted,
  keep-sort_rows, keep-behind,
}
use pureplay_analytics_inges.Ingestion.Repository.Upsert.{IsUnique}
use pureplay_analytics_inges.Shots.Query.{
  Texts, ShotsFilter, ok, cursor_place, is_below, place_of, row_before, matches, selected,
  encode_cursor, decode_cursor, sql_instant, sql_text, sql_filter, has_nul,
}

-- The instants of the years 1 to 9999, whose ISO texts the database reads.
abbrev pub HasYear : ℤ → Type 0
HasYear t = (negsuc 62135596799999 ≤ℤ t) × (t ≤ℤ pos 253402300799999)

-- Cursors and ISO texts can be read back and are not empty, and the collation is a strict order in
-- which any two texts can be compared.
pub record IsFaithful (texts : Texts) : Type 0 where
  pub cursor_read :
      (a b : Text) → texts.read_cursor (texts.write_cursor a b) ≡ some (some a, some b)
  pub cursor_present : (a b : Text) → texts.write_cursor a b ≢ []
  pub iso_present : (t : ℤ) → texts.iso t ≢ []
  pub iso_read : (t : ℤ) → HasYear t → texts.instant (texts.iso t) ≡ some t
  pub id_irreflexive : (a : Text) → texts.id_before a a ≡ false
  pub id_transitive :
      (a b c : Text)
      → texts.id_before a b ≡ true
      → texts.id_before b c ≡ true
      → texts.id_before a c ≡ true
  pub id_connected :
      (a b : Text) → text_eq a b ≡ false → (texts.id_before a b || texts.id_before b a) ≡ true

-- What a row must be for a cursor to be made of it.
pub record HasPlace {N : Type 0} (row : NormalisedShot N) : Type 0 where
  pub has_year : HasYear row.captured_at_utc
  pub has_id : row.canonical_shot_id ≢ []
  pub no_nul : has_nul row.canonical_shot_id ≡ false

module _ {A : Type 0} where
  keep-true : (rows : List (A)) → keep (λ row. true) rows ≡ rows
  keep-true [] = refl
  keep-true (x ∷ rows) = ap (λ r. x ∷ r) (keep-true rows)

module _ (texts : Texts) {N : Type 0} where
  -- All the rows that a query asks for, newest first.
  abbrev pub listing :
      ShotsFilter → ℤ → ℤ → Option Text → Bool → List (NormalisedShot N) → List (NormalisedShot N)
  listing filter since until club near rows =
      sort_rows (row_before texts) (keep (matches filter since until club near) rows)

module _ (texts : Texts) (faithful : IsFaithful texts) where
  is_below_transitive :
      (x y z : ℤ × Text)
      → is_below texts x y ≡ true
      → is_below texts y z ≡ true
      → is_below texts x z ≡ true
  is_below_transitive (t, i) (u, j) (v, k) h g = ground (arith, faithful.id_transitive i j k)

module _ (texts : Texts) (faithful : IsFaithful texts) {N : Type 0} where
  pub row_before-IsStrict : IsStrict (row_before texts {N = N})
  row_before-IsStrict = record {
    before_irreflexive = λ x. ground (arith, faithful.id_irreflexive x.canonical_shot_id);
    before_transitive =
        λ x y z h g. is_below_transitive texts faithful (place_of z) (place_of y) (place_of x) g h;
  }

  row_before_connected :
      (a b : NormalisedShot N)
      → has_id a.canonical_shot_id b ≡ false
      → (row_before texts a b || row_before texts b a) ≡ true
  row_before_connected a b h =
      ground (arith, faithful.id_connected b.canonical_shot_id a.canonical_shot_id)

  pub IsUnique-AreComparable :
      (rows : List (NormalisedShot N)) → IsUnique rows → AreComparable (row_before texts) rows
  IsUnique-AreComparable [] u = tt
  IsUnique-AreComparable (x ∷ rows) u =
      (All-map _ _ (λ y h. row_before_connected x y h.1) rows u.0, IsUnique-AreComparable rows u.1)

  module _ (filter : ShotsFilter) (since until : ℤ) (club : Option Text) (near : Bool)
      (rows : List (NormalisedShot N)) (unique : IsUnique rows) where
    abbrev all_rows : List (NormalisedShot N)
    all_rows = listing texts filter since until club near rows

    strict : IsStrict (row_before texts {N = N})
    strict = row_before-IsStrict

    chosen : AreComparable (row_before texts) (keep (matches filter since until club near) rows)
    chosen = AreComparable-keep (row_before texts) _ rows (IsUnique-AreComparable rows unique)

    pub selected-behind :
        (front : List (NormalisedShot N)) (c : NormalisedShot N) (rest : List (NormalisedShot N))
        → all_rows ≡ front ++ c ∷ rest
        → selected texts filter since until club near (some (place_of c)) rows ≡ rest
    unfolding selected
    selected-behind front c rest h =
        sym (keep-sort_rows (row_before texts) strict (row_before texts c) _ chosen)
        ∙ ap (keep (row_before texts c)) h
        ∙ keep-behind (row_before texts) strict front c rest (
            subst (IsSorted (row_before texts)) h
              (sort_rows-IsSorted (row_before texts) strict _ chosen))

    pub selected-none : selected texts filter since until club near none rows ≡ all_rows
    unfolding selected
    selected-none = ap (sort_rows (row_before texts)) (keep-true _)

truthy-present : (t : Text) → t ≢ [] → truthy (some t) ≡ some t
unfolding truthy
truthy-present [] h = absurd (h refl)
truthy-present (c ∷ t) h = refl

module _ (texts : Texts) (faithful : IsFaithful texts) {N : Type 0} where
  -- The cursor of a row is read back as its place.
  pub cursor_place-encode_cursor :
      (row : NormalisedShot N)
      → HasPlace row
      → cursor_place texts (truthy (some (encode_cursor texts row))) ≡ ok (some (place_of row))
  unfolding cursor_place decode_cursor sql_instant sql_text
  cursor_place-encode_cursor row h =
      let captured = texts.iso row.captured_at_utc in
      let id = row.canonical_shot_id in
      ground (
        arith,
        truthy-present (texts.write_cursor captured id) (faithful.cursor_present captured id),
        faithful.cursor_read captured id,
        truthy-present captured (faithful.iso_present row.captured_at_utc),
        truthy-present id h.has_id,
        faithful.iso_read row.captured_at_utc h.has_year,
        h.no_nul,
      )

-- The ISO text of an instant of those years is read as the instant.
pub sql_instant-iso :
    (texts : Texts)
    → IsFaithful texts
    → (t : ℤ) → HasYear t
    → sql_instant texts (texts.iso t) ≡ ok t
unfolding sql_instant
sql_instant-iso texts faithful t h = ground (arith, faithful.iso_read t h)

-- A filter whose texts have no U+0000.
abbrev pub LacksNul : Option Text → Type 0
LacksNul none = Unit
LacksNul (some t) = has_nul t ≡ false

pub record IsTaken (filter : ShotsFilter) : Type 0 where
  pub user_taken : LacksNul filter.canonical_user_id
  pub vendor_user_taken : LacksNul filter.vendor_user_id

sql_text-taken : (o : Option Text) → LacksNul o → sql_text o ≡ ok o
unfolding sql_text
sql_text-taken none h = refl
sql_text-taken (some t) h = rw h refl

pub sql_filter-taken : (filter : ShotsFilter) → IsTaken filter → sql_filter filter ≡ ok filter
unfolding sql_filter
sql_filter-taken filter h =
    rw
      (
        sql_text-taken filter.canonical_user_id h.user_taken,
        sql_text-taken filter.vendor_user_id h.vendor_user_taken,
      )
      refl
