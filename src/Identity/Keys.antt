-- ===== src/Identity/Keys.antt =====
-- The Redis keys of src/identity/identity.service.ts.
use pureplay_analytics_inges.Prelude.{◌≡◌, refl, ◌∙◌, false, Text, text_eq, text_eq_comm, ◌&&◌}
use pureplay_analytics_inges.Domain.Shot.{
  Vendor, trackpro, swingmetric, proswing, vendor_text, vendor_eq,
}
use pureplay_analytics_inges.Identity.{identity_cache_key, identity_list_cache_key}

-- The keys of the resolve cache are equal exactly for the same vendor and the same vendor user,
-- whatever the ids contain.
pub identity_cache_key_eq :
    (v w : Vendor) (u t : Text)
    → text_eq (identity_cache_key (vendor_text v) u) (identity_cache_key (vendor_text w) t)
      ≡ (vendor_eq v w && text_eq u t)
unfolding identity_cache_key text_eq
identity_cache_key_eq trackpro trackpro u t = refl
identity_cache_key_eq trackpro swingmetric u t = refl
identity_cache_key_eq trackpro proswing u t = refl
identity_cache_key_eq swingmetric trackpro u t = refl
identity_cache_key_eq swingmetric swingmetric u t = refl
identity_cache_key_eq swingmetric proswing u t = refl
identity_cache_key_eq proswing trackpro u t = refl
identity_cache_key_eq proswing swingmetric u t = refl
identity_cache_key_eq proswing proswing u t = refl

pub identity_list_cache_key_eq :
    (c d : Text) → text_eq (identity_list_cache_key c) (identity_list_cache_key d) ≡ text_eq c d
unfolding identity_list_cache_key text_eq
identity_list_cache_key_eq c d = refl

-- Nor is it the key of a list.
pub list_key-ne-key :
    (v : Vendor) (u c : Text)
    → text_eq (identity_list_cache_key c) (identity_cache_key (vendor_text v) u) ≡ false
unfolding identity_cache_key identity_list_cache_key text_eq
list_key-ne-key trackpro u c = refl
list_key-ne-key _ u c = refl

pub key-ne-list_key :
    (v : Vendor) (u c : Text)
    → text_eq (identity_cache_key (vendor_text v) u) (identity_list_cache_key c) ≡ false
key-ne-list_key v u c = text_eq_comm _ _ ∙ list_key-ne-key v u c
