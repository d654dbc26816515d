-- ===== src/Shots/Client.antt =====
-- A client of src/shots/: it follows the cursors of the pages. A page, by the number of its rows.
use pureplay_analytics_inges.Prelude.{
  take-all, take-take, last?, ℕ, zero, suc, ◌≤◌, ◌<◌, ◌≡◌, refl, Bool, true, false, Option, none,
  some, List, ◌++◌, map, Text, truthy, ℤ, pos, ◌+ℤ◌, ltb_ℤ, length, take, length-take, arith,
}
use pureplay_analytics_inges.Domain.Shot.{NormalisedShot}
use pureplay_analytics_inges.Ingestion.Repository.{without_payload}
use pureplay_analytics_inges.Shots.{page_of}
use pureplay_analytics_inges.Shots.Query.{
  Texts, ShotsQuery, ShotsPage, Answer, ok, page_limit, window_bound, check_club, encode_cursor,
  parse_window_date,
}
use pureplay_analytics_inges.Shots.Listing.{HasYear}

-- A client that asks for the page behind the cursor of the last one until there is none; `none` is an
-- error, or not enough fuel. The argument of `clock` is the fuel at a request.
module _ {N : Type 0} (get : ShotsQuery → ℤ → Answer (ShotsPage N)) (clock : ℕ → ℤ) where
  abbrev pub followed :
      (Text → Option (List (NormalisedShot N)))
      → Answer (ShotsPage N)
      → Option (List (NormalisedShot N))
  followed next (ok page) = elim page.next_cursor [
    | none ↦ some page.items
    | some cursor ↦ elim (next cursor) [ none ↦ none | some items ↦ some (page.items ++ items) ]
  ]
  followed next answer = none

  unfoldable pub follow : ℕ → ShotsQuery → Option Text → Option (List (NormalisedShot N))
  follow zero query cursor = none
  follow (suc fuel) query cursor =
      followed (λ c. follow fuel query (some c))
        (get (record query { cursor = cursor }) (clock fuel))

  pub follow-end :
      (fuel : ℕ) (query : ShotsQuery) (cursor : Option Text) (page : ShotsPage N)
      → get (record query { cursor = cursor }) (clock fuel) ≡ ok page
      → page.next_cursor ≡ none
      → follow (suc fuel) query cursor ≡ some page.items
  unfolding follow
  follow-end fuel query cursor page h k = rw (h, k) refl

  pub follow-more :
      (fuel : ℕ) (query : ShotsQuery) (cursor : Option Text) (page : ShotsPage N)
      → (c : Text) (items : List (NormalisedShot N))
      → get (record query { cursor = cursor }) (clock fuel) ≡ ok page
      → page.next_cursor ≡ some c
      → follow fuel query (some c) ≡ some items
      → follow (suc fuel) query cursor ≡ some (page.items ++ items)
  unfolding follow
  follow-more fuel query cursor page c items h k g = rw (h, k, g) refl

module _ (texts : Texts) {N : Type 0} (limit : ℕ) (since until : ℤ) (club : Option Text)
    (near : Bool) (rest : List (NormalisedShot N)) where
  abbrev pub page : ShotsPage N
  page = page_of texts (pos limit) since until club near (take (suc limit) rest)

  pub page-last :
      length rest ≤ limit → (page.next_cursor ≡ none) × (page.items ≡ map without_payload rest)
  unfolding page_of
  page-last h =
      let whole = take-all (suc limit) rest (omega arith) in
      let short : ltb_ℤ (pos limit) (pos (length rest)) ≡ false = ground arith in
      rw (whole, short) (refl, refl)

  pub page-more :
      (end : NormalisedShot N)
      → limit < length rest
      → last? (take limit rest) ≡ some end
      → (page.next_cursor ≡ some (encode_cursor texts end))
        × (page.items ≡ map without_payload (take limit rest))
  unfolding page_of
  page-more end h l =
      let long : ltb_ℤ (pos limit) (pos (length (take (suc limit) rest))) ≡ true =
        ground (arith, length-take (suc limit) rest) in
      rw (long, take-take limit rest, l) (refl, refl)

pub window_bound-given :
    (texts : Texts) (value : Option Text) (text field : Text) (default t : ℤ)
    → truthy value ≡ some text
    → texts.date text ≡ some t
    → window_bound texts (truthy value) field default ≡ ok t
unfolding parse_window_date
window_bound-given texts value text field default t h k = ground (arith, h, k)

pub one_more : (n : ℕ) → pos n +ℤ pos 1 ≡ pos (suc n)
unfolding ◌+ℤ◌
one_more n = ground arith

-- A query whose window, club and page size are given and accepted. The size is one more than `limit`.
pub record Asks (texts : Texts) (query : ShotsQuery) (since until : ℤ) (club : Option Text)
    (limit : ℕ) : Type 0 where
  pub since_text : Text
  pub has_since : truthy query.since ≡ some since_text
  pub since_read : texts.date since_text ≡ some since
  pub until_text : Text
  pub has_until : truthy query.until ≡ some until_text
  pub until_read : texts.date until_text ≡ some until
  pub club_known : check_club (truthy query.club) ≡ ok club
  pub since_year : HasYear since
  pub until_year : HasYear until
  pub limit_given : page_limit query.limit ≡ pos (suc limit)
