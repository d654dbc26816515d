-- ===== src/Ingestion/Repository/NearDuplicate.antt =====
-- The search of `checkAndFlagNearDuplicates` in src/ingestion/shot-repository.ts.
use pureplay_analytics_inges.Prelude.{
  ◌≡◌, ap, sym, ◌∙◌, true, false, ◌||◌, text_eq, text_eq_iff, ℤ, pos, ◌+ℤ◌, ◌-ℤ◌, ◌≤ℤ◌, ≤ℤ→leb_ℤ,
  floor_div, floor_div-near, -ℤ_parts, +ℤ_parts, arith, inl, inr,
}
use pureplay_analytics_inges.Platform.{Number, Platform}
use pureplay_analytics_inges.Domain.Shot.{NormalisedShot, vendor_eq_iff}
use pureplay_analytics_inges.Ingestion.ContentHash.{compute_content_hash}
use pureplay_analytics_inges.Ingestion.ContentHash.Injective.{
  SameHashInput, SameHashInput-hash_text,
}
use pureplay_analytics_inges.Ingestion.Repository.{hash_input, is_origin_of}

module _ {N : Type 0} ⦃num : Number N⦄ ⦃p : Platform⦄ where
  -- The `content_hash` of a stored row is the one that its parser computed.
  abbrev pub IsHashed : NormalisedShot N → Type 0
  IsHashed s = s.content_hash ≡ compute_content_hash (hash_input s s.captured_at_utc)

  compute_content_hash-cong :
      (row s : NormalisedShot N) (t : ℤ)
      → SameHashInput (hash_input row row.captured_at_utc) (hash_input s row.captured_at_utc)
      → floor_div row.captured_at_utc 60000 ≡ floor_div t 60000
      → compute_content_hash (hash_input row row.captured_at_utc)
        ≡ compute_content_hash (hash_input s t)
  unfolding compute_content_hash
  compute_content_hash-cong row s t h m =
      ap p.sha256_hex (SameHashInput-hash_text _ _ (at_minute h))
    where
      at_minute :
          SameHashInput (hash_input row row.captured_at_utc) (hash_input s row.captured_at_utc)
          → SameHashInput (hash_input row row.captured_at_utc) (hash_input s t)
      at_minute g = record {
        vendor_user_id = g.vendor_user_id;
        club_code = g.club_code;
        minute = m;
        ball_speed = g.ball_speed;
        launch_angle = g.launch_angle;
        carry = g.carry;
        lateral = g.lateral;
      }

  -- Of two shots in order, one hash of the later one's is that of the earlier one.
  hash-covers :
      (s row : NormalisedShot N)
      → IsHashed s
      → IsHashed row
      → SameHashInput (hash_input row row.captured_at_utc) (hash_input s row.captured_at_utc)
      → row.captured_at_utc ≤ℤ s.captured_at_utc
      → s.captured_at_utc ≤ℤ row.captured_at_utc +ℤ pos 60000
      → (text_eq row.content_hash s.content_hash
          || text_eq row.content_hash
              (compute_content_hash (hash_input s (s.captured_at_utc -ℤ pos 60000))))
        ≡ true
  hash-covers s row hs hr same early late =
      elim (floor_div-near row.captured_at_utc s.captured_at_utc early late) [
        | inl m ↦ rw (
            (text_eq_iff _ _).1
              (hr ∙ compute_content_hash-cong row s s.captured_at_utc same m ∙ sym hs))
        | inr m ↦
            let adjacent =
              (text_eq_iff _ _).1
                (hr ∙ compute_content_hash-cong row s (s.captured_at_utc -ℤ pos 60000) same m) in
            ground arith
      ]

  -- A row of another id, of the same vendor, user and club and with the same rounded
  -- measurements, that was captured at most 60 seconds before a shot matches it as an origin,
  -- also across the minute, if the hashes of both are those computed from them.
  pub is_origin_of-in_order :
      (s row : NormalisedShot N)
      → IsHashed s
      → IsHashed row
      → row.vendor ≡ s.vendor
      → SameHashInput (hash_input row row.captured_at_utc) (hash_input s row.captured_at_utc)
      → text_eq row.canonical_shot_id s.canonical_shot_id ≡ false
      → row.captured_at_utc ≤ℤ s.captured_at_utc
      → s.captured_at_utc ≤ℤ row.captured_at_utc +ℤ pos 60000
      → is_origin_of s row ≡ true
  unfolding is_origin_of
  is_origin_of-in_order s row hs hr hv same id early late =
      let vendor = (vendor_eq_iff s.vendor row.vendor).1 (sym hv) in
      let user = (text_eq_iff row.vendor_user_id s.vendor_user_id).1 same.vendor_user_id in
      let low =
        ≤ℤ→leb_ℤ (s.captured_at_utc -ℤ pos 60000) row.captured_at_utc
          (omega (arith, -ℤ_parts, +ℤ_parts)) in
      let high =
        ≤ℤ→leb_ℤ row.captured_at_utc (s.captured_at_utc +ℤ pos 60000)
          (omega (arith, -ℤ_parts, +ℤ_parts)) in
      rw (vendor, user, hash-covers s row hs hr same early late, id, low, high)
