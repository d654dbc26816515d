-- ===== src/Ingestion/ContentHash.antt =====
-- src/ingestion/content-hash.ts
pub mod Injective
use pureplay_analytics_inges.Prelude.{
  ℕ, ◌^◌, List, [], ◌∷◌, ◌++◌, Text, codes, text_eq, ℤ, floor_div, join, if◌then◌else◌,
}
use pureplay_analytics_inges.Platform.{Number, Platform}
use pureplay_analytics_inges.Domain.Club.{club_text, ClubValue, code, inherited}

pub record ContentHashInput (N : Type 0) : Type 0 where
  pub vendor_user_id : Text
  pub club_code : ClubValue
  pub captured_at_utc : ℤ
  pub ball_speed_mps : N
  pub launch_angle_deg : N
  pub carry_m : N
  pub lateral_m : N

-- The instant is one of the minute that the first 16 characters of its text name.
unfoldable pub minute_bucket : ⦃p : Platform⦄ → ℤ → Text
minute_bucket ⦃p⦄ t = p.iso_minute (floor_div t 60000)

-- A club in `join`: its code, or the text of the member of `Object.prototype`.
unfoldable pub club_value_text : ClubValue → Text
club_value_text (code c) = club_text c
club_value_text (inherited name) =
    if text_eq name (codes "__proto__")
    then codes "[object Object]"
    else if text_eq name (codes "constructor")
    then codes "function Object() { [native code] }"
    else codes "function " ++ name ++ codes "() { [native code] }"

module _ {N : Type 0} ⦃num : Number N⦄ where
  unfoldable pub round_to : N → ℕ → N
  round_to value decimals =
      num.div (num.round (num.mul value (num.literal (10 ^ decimals) 0)))
        (num.literal (10 ^ decimals) 0)

module _ {N : Type 0} ⦃num : Number N⦄ ⦃p : Platform⦄ where
  unfoldable pub hash_parts : ContentHashInput N → List Text
  hash_parts input =
      input.vendor_user_id
      ∷ club_value_text input.club_code
      ∷ minute_bucket input.captured_at_utc
      ∷ num.to_fixed (round_to input.ball_speed_mps 1) 1
      ∷ num.to_fixed (round_to input.launch_angle_deg 1) 1
      ∷ num.to_fixed (round_to input.carry_m 0) 0
      ∷ num.to_fixed (round_to input.lateral_m 0) 0
      ∷ []

  -- `parts.join("|")`, the text that is hashed.
  unfoldable pub hash_text : ContentHashInput N → Text
  unfolding hash_parts
  hash_text input = join (codes "|") (hash_parts input)

  unfoldable pub compute_content_hash : ContentHashInput N → Text
  compute_content_hash input = p.sha256_hex (hash_text input)
