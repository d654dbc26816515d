-- ===== src/Ingestion/Repository/Origin.antt =====
-- `checkAndFlagNearDuplicates` of src/ingestion/shot-repository.ts: its matches and its writes.
use pureplay_analytics_inges.Prelude.{
  ◌≡◌, refl, sym, ◌∙◌, ◌⊎◌, true, false, Option, none, some, Text, text_eq, text_eq_iff, ℤ, pos,
  ◌+ℤ◌, ◌-ℤ◌, ◌≤ℤ◌, ◌<ℤ◌, leb_ℤ→≤ℤ, floor_div, -ℤ_parts, +ℤ_parts, arith, inl, inr, Bool-cases, All,
  In, keep, keep-All, keep-nil, All-keep, update_where, &&-eq-true,
}
use pureplay_analytics_inges.Platform.{Number, Platform, IsStandard, IsPrinted, HasFourDigitYear}
use pureplay_analytics_inges.Domain.Club.{ClubCode, code}
use pureplay_analytics_inges.Domain.Shot.{NormalisedShot, vendor_eq_iff}
use pureplay_analytics_inges.Database.{Database, has_id}
use pureplay_analytics_inges.Database.Order.{
  head?-order_by-none, head?-order_by-All, head?-order_by-le,
}
use pureplay_analytics_inges.Ingestion.ContentHash.{compute_content_hash, hash_text}
use pureplay_analytics_inges.Ingestion.ContentHash.Injective.{SameHashInput, hash_text-injective}
use pureplay_analytics_inges.Ingestion.Repository.{
  hash_input, is_origin_of, find_origin, check_and_flag_near_duplicates, flag,
}
use pureplay_analytics_inges.Ingestion.Repository.NearDuplicate.{IsHashed}

later_ne : (a b : ℤ) → a <ℤ b → b ≡ a → ⊥
later_ne a b h e = ground arith

before_ne : (t : ℤ) (b : ℤ) → floor_div t 60000 <ℤ b → b ≡ floor_div (t -ℤ pos 60000) 60000 → ⊥
unfolding floor_div ◌-ℤ◌
before_ne t b h e = ground arith

module _ {N : Type 0} ⦃num : Number N⦄ ⦃p : Platform⦄ where
  -- What the search guarantees of a row that it matches.
  pub record IsOriginOf (s row : NormalisedShot N) : Type 0 where
    pub vendor : s.vendor ≡ row.vendor
    pub vendor_user_id : row.vendor_user_id ≡ s.vendor_user_id
    pub hashes :
        (row.content_hash ≡ s.content_hash)
        ⊎ (row.content_hash ≡ compute_content_hash (hash_input s (s.captured_at_utc -ℤ pos 60000)))
    pub other : text_eq row.canonical_shot_id s.canonical_shot_id ≡ false
    pub after_low : s.captured_at_utc ≤ℤ row.captured_at_utc +ℤ pos 60000
    pub before_high : row.captured_at_utc ≤ℤ s.captured_at_utc +ℤ pos 60000

  pub is_origin_of_sound : (s row : NormalisedShot N) → is_origin_of s row ≡ true → IsOriginOf s row
  unfolding is_origin_of
  is_origin_of_sound s row h =
      let (h5, high) = &&-eq-true _ _ h in
      let (h4, low) = &&-eq-true _ _ h5 in
      let (h3, id) = &&-eq-true _ _ h4 in
      let (h2, hash) = &&-eq-true _ _ h3 in
      let (v, u) = &&-eq-true _ _ h2 in
      let low' = leb_ℤ→≤ℤ (s.captured_at_utc -ℤ pos 60000) row.captured_at_utc low in
      record {
        vendor = (vendor_eq_iff _ _).0 v;
        vendor_user_id = (text_eq_iff _ _).0 u;
        hashes = ground (
          arith,
          text_eq_iff row.content_hash s.content_hash,
          text_eq_iff row.content_hash
              (compute_content_hash (hash_input s (s.captured_at_utc -ℤ pos 60000))),
        );
        other = ground arith;
        after_low = omega (arith, -ℤ_parts, +ℤ_parts);
        before_high = leb_ℤ→≤ℤ row.captured_at_utc (s.captured_at_utc +ℤ pos 60000) high;
      }

  -- SHA-256 has no collision between a row's hash text and the two that a shot is looked up by.
  pub record NoCollision (s row : NormalisedShot N) : Type 0 where
    pub same_minute :
        compute_content_hash (hash_input row row.captured_at_utc)
          ≡ compute_content_hash (hash_input s s.captured_at_utc)
        → hash_text (hash_input row row.captured_at_utc)
          ≡ hash_text (hash_input s s.captured_at_utc)
    pub minute_before :
        compute_content_hash (hash_input row row.captured_at_utc)
          ≡ compute_content_hash (hash_input s (s.captured_at_utc -ℤ pos 60000))
        → hash_text (hash_input row row.captured_at_utc)
          ≡ hash_text (hash_input s (s.captured_at_utc -ℤ pos 60000))

  -- The instants of both shots, and that of the minute before the first, are of the years 0000 to
  -- 9999.
  pub record AreDated (s row : NormalisedShot N) : Type 0 where
    pub shot : HasFourDigitYear (floor_div s.captured_at_utc 60000)
    pub before : HasFourDigitYear (floor_div (s.captured_at_utc -ℤ pos 60000) 60000)
    pub stored : HasFourDigitYear (floor_div row.captured_at_utc 60000)

  -- A row that a shot matches has the shot's user, club and rounded measurements and is of its
  -- minute or of the minute before, where both hashes are computed, the clubs recognised and
  -- the instants of the years 0000 to 9999, if SHA-256 does not collide on these texts.
  pub is_origin_of-minute :
      (s row : NormalisedShot N) (c d : ClubCode)
      → IsStandard p
      → IsPrinted num
      → NoCollision s row
      → AreDated s row
      → IsHashed s
      → IsHashed row
      → s.club_code ≡ code c
      → row.club_code ≡ code d
      → is_origin_of s row ≡ true
      → SameHashInput (hash_input row row.captured_at_utc) (hash_input s s.captured_at_utc)
        ⊎ SameHashInput
            (hash_input row row.captured_at_utc)
            (hash_input s (s.captured_at_utc -ℤ pos 60000))
  is_origin_of-minute s row c d std pr free dated hs hr sc rd h =
      elim ((is_origin_of_sound s row h).hashes) [
        | inl e ↦ inl (
            hash_text-injective _ _ d c std pr rd sc dated.stored dated.shot
              (free.same_minute (sym hr ∙ e ∙ hs)))
        | inr e ↦ inr (
            hash_text-injective _ _ d c std pr rd sc dated.stored dated.before
              (free.minute_before (sym hr ∙ e)))
      ]

  -- A row of a later minute than a shot never matches it, where both hashes are computed, the
  -- clubs recognised and the instants of the years 0000 to 9999, if SHA-256 does not collide on
  -- these texts.
  pub is_origin_of-out_of_order :
      (s row : NormalisedShot N) (c d : ClubCode)
      → IsStandard p
      → IsPrinted num
      → NoCollision s row
      → AreDated s row
      → IsHashed s
      → IsHashed row
      → s.club_code ≡ code c
      → row.club_code ≡ code d
      → floor_div s.captured_at_utc 60000 <ℤ floor_div row.captured_at_utc 60000
      → is_origin_of s row ≡ false
  is_origin_of-out_of_order s row c d std pr free dated hs hr sc rd later =
      elim (Bool-cases (is_origin_of s row)) [
        | inl e ↦ absurd (apart (is_origin_of-minute s row c d std pr free dated hs hr sc rd e))
        | inr e ↦ e
      ]
    where
      apart :
          SameHashInput (hash_input row row.captured_at_utc) (hash_input s s.captured_at_utc)
            ⊎ SameHashInput
                (hash_input row row.captured_at_utc)
                (hash_input s (s.captured_at_utc -ℤ pos 60000))
          → ⊥
      apart (inl same) =
          later_ne (floor_div s.captured_at_utc 60000) (floor_div row.captured_at_utc 60000) later
            same.minute
      apart (inr same) =
          before_ne s.captured_at_utc (floor_div row.captured_at_utc 60000) later same.minute

  -- What a call has done: no row matches and nothing is written, or the earliest of the rows that
  -- match is the origin, and the shot's own rows are marked with it.
  pub data Checked (s : NormalisedShot N) (db : Database N) (o : Option Text) (db' : Database N)
      : Type 0 where
    clear :
        o ≡ none → All (λ row. is_origin_of s row ≡ false) db.shots → db' ≡ db → Checked s db o db'
    duplicate :
        (origin : NormalisedShot N)
        → o ≡ some origin.canonical_shot_id
        → In origin db.shots
        → is_origin_of s origin ≡ true
        → All
            (λ row. is_origin_of s row ≡ true → origin.captured_at_utc ≤ℤ row.captured_at_utc)
            db.shots
        → db' ≡ record db {
          shots =
              update_where
                (has_id s.canonical_shot_id)
                (λ row. record row { duplicate_of = some origin.canonical_shot_id })
                db.shots;
        }
        → Checked s db o db'

  flag-Checked :
      (s : NormalisedShot N) (db : Database N) (o : Option (NormalisedShot N))
      → find_origin s db.shots ≡ o
      → Checked s db (flag s db o).0 (flag s db o).1
  unfolding find_origin
  flag-Checked s db none e =
      clear refl
        (keep-nil (is_origin_of s) db.shots
          (head?-order_by-none (λ row. row.captured_at_utc) (keep (is_origin_of s) db.shots) e))
        refl
  flag-Checked s db (some origin) e =
      let (matches, stored) =
        head?-order_by-All (λ row. row.captured_at_utc)
          (λ row. (is_origin_of s row ≡ true) × In row db.shots) (keep (is_origin_of s) db.shots)
          origin e (keep-All (is_origin_of s) db.shots) in
      duplicate origin refl stored matches
        (All-keep (λ row. origin.captured_at_utc ≤ℤ row.captured_at_utc) (is_origin_of s) db.shots
          (head?-order_by-le (λ row. row.captured_at_utc) (keep (is_origin_of s) db.shots) origin
            e))
        refl

  -- A near-duplicate check either returns null and writes nothing, and no row matches, or
  -- returns the id of a row of the table that matches and that no matching row was captured
  -- before, and sets `duplicate_of` to it on the rows with the shot's id and changes nothing
  -- else.
  pub check_and_flag_near_duplicates-Checked :
      (s : NormalisedShot N) (db : Database N)
      → Checked s db (check_and_flag_near_duplicates s db).0 (check_and_flag_near_duplicates s db).1
  unfolding check_and_flag_near_duplicates
  check_and_flag_near_duplicates-Checked s db = flag-Checked s db (find_origin s db.shots) refl
