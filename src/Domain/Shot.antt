-- ===== src/Domain/Shot.antt =====
-- src/shared/domain/shot.ts. A `captured_at_utc` or `received_at_utc` text is given by the instant that
-- it denotes, in milliseconds since the epoch; `N` is the type of doubles.
use pureplay_analytics_inges.Prelude.{
  ℕ, ◌≡◌, refl, ◌↔◌, Bool, true, false, Option, some, List, [], ◌∷◌, Text, codes, text_eq, ℤ, find,
  arith,
}
use pureplay_analytics_inges.Domain.Json.{Members}
use pureplay_analytics_inges.Domain.Club.{ClubValue}

pub data Vendor : Type 0 where
  trackpro swingmetric proswing : Vendor

abbrev pub valid_vendors : List Vendor
valid_vendors = trackpro ∷ swingmetric ∷ proswing ∷ []

abbrev pub vendor_text : Vendor → Text
vendor_text trackpro = codes "trackpro"
vendor_text swingmetric = codes "swingmetric"
vendor_text proswing = codes "proswing"

abbrev pub vendor_eq : Vendor → Vendor → Bool
vendor_eq trackpro trackpro = true
vendor_eq swingmetric swingmetric = true
vendor_eq proswing proswing = true
vendor_eq _ _ = false

-- `VALID_VENDORS.includes(text as Vendor)`, with the vendor that is found.
unfoldable pub as_vendor : Text → Option Vendor
as_vendor t = find (λ v. text_eq (vendor_text v) t) valid_vendors

pub record NormalisedShot (N : Type 0) : Type 0 where
  pub canonical_shot_id : Text
  pub vendor : Vendor
  pub vendor_shot_id : Option Text
  pub idempotency_key : Text
  pub vendor_user_id : Text
  pub canonical_user_id : Option Text
  pub captured_at_utc : ℤ
  pub captured_at_tz_offset_min : Option ℤ
  pub received_at_utc : ℤ
  pub club_code : ClubValue
  pub club_raw : Text
  pub ball_speed_mps : N
  pub club_head_speed_mps : Option N
  pub launch_angle_deg : N
  pub spin_rpm : Option N
  pub carry_m : N
  pub total_m : Option N
  pub lateral_m : N
  pub device_id : Option Text
  pub session_id : Option Text
  pub content_hash : Text
  pub raw_payload : Members N
  pub schema_version : ℕ
  pub parser_version : Text
  pub duplicate_of : Option Text

pub vendor_eq_iff : (v w : Vendor) → (vendor_eq v w ≡ true) ↔ (v ≡ w)
vendor_eq_iff v w = ground arith

pub as_vendor-vendor_text : (v : Vendor) → as_vendor (vendor_text v) ≡ some v
unfolding as_vendor text_eq
as_vendor-vendor_text trackpro = refl
as_vendor-vendor_text _ = refl

pub vendor_eq_comm : (v w : Vendor) → vendor_eq v w ≡ vendor_eq w v
vendor_eq_comm v w = ground arith
