-- ===== src/Identity/Coherence.antt =====
-- The resolve cache of src/identity/identity.service.ts and the table behind it.
use pureplay_analytics_inges.Prelude.{
  ◌≡◌, refl, ◌⊎◌, false, Option, none, some, List, [], Text, text_eq_refl, ℤ, arith, inl, inr,
  is_empty, or_else,
}
use pureplay_analytics_inges.Domain.Shot.{
  Vendor, vendor_eq_iff, vendor_text, as_vendor, as_vendor-vendor_text,
}
use pureplay_analytics_inges.World.{World, CacheValue, text, identities, cache_del}
use pureplay_analytics_inges.Identity.{
  identity_cache_key, identity_list_cache_key, mapping, from_text, list_known, resolve_vendor,
  resolve_canonical_user_id, link_identity, list_by_canonical_user, unlink_identity,
}
use pureplay_analytics_inges.Identity.Keys.{identity_cache_key_eq, list_key-ne-key}
use pureplay_analytics_inges.Identity.Mapping.{
  mapping-link_transaction, same_user-mapping, mapping-keep_other, mapping-keep_self, IsKeyed,
}

from_text-or_else :
    (o : Option Text)
    → ((c : Text) → o ≡ some c → is_empty c ≡ false)
    → from_text (or_else o []) ≡ o
from_text-or_else none h = refl
from_text-or_else (some c) h = rw (h c refl)

module _ {N : Type 0} where
  -- Each entry of the resolve cache is absent or is the table's answer, with "" for none.
  abbrev pub IsCoherent : World N → Type 0
  IsCoherent w =
      (v : Vendor) (u : Text)
      → (w.redis (identity_cache_key (vendor_text v) u) ≡ none)
        ⊎ (w.redis (identity_cache_key (vendor_text v) u)
            ≡ some (text (or_else (mapping v u w.db.user_identities) [])))

  -- Canonical user ids are not empty.
  abbrev pub HasNames : World N → Type 0
  HasNames w =
      (v : Vendor) (u c : Text) → mapping v u w.db.user_identities ≡ some c → is_empty c ≡ false

  -- What is resolved is the table's mapping, whether it comes from the cache or not.
  pub resolve_canonical_user_id-mapping :
      (v : Vendor) (u : Text) (w : World N)
      → IsCoherent w
      → HasNames w
      → (resolve_canonical_user_id (vendor_text v) u w).0 ≡ mapping v u w.db.user_identities
  unfolding resolve_canonical_user_id
  resolve_canonical_user_id-mapping v u w coherent names = elim (coherent v u) [
    | inl e ↦ rw (as_vendor-vendor_text v, resolve_vendor, e)
    | inr e ↦
        rw (as_vendor-vendor_text v, resolve_vendor, e)
          (from_text-or_else (mapping v u w.db.user_identities) (names v u))
  ]

  resolve_vendor-IsCoherent :
      (o : Option Vendor) (u : Text) (w : World N)
      → IsCoherent w
      → IsCoherent (resolve_vendor o u w).1
  resolve_vendor-IsCoherent none u w coherent v' u' = coherent v' u'
  resolve_vendor-IsCoherent (some v) u w coherent v' u' = elim (coherent v u) [
    | inl e ↦ rw e (
        ground (
          arith,
          coherent v' u',
          identity_cache_key_eq v v' u u',
          same_user-mapping v v' u u' w.db.user_identities,
        ))
    | inr e ↦ rw e (coherent v' u')
  ]

  pub link_identity-IsCoherent :
      (v : Vendor) (u c actor : Text) (now : ℤ) (w : World N)
      → IsCoherent w
      → IsCoherent (link_identity v u c actor now w).1
  unfolding link_identity
  link_identity-IsCoherent v u c actor now w coherent v' u' = ground (
    arith,
    coherent v' u',
    identity_cache_key_eq v v' u u',
    list_key-ne-key v' u' c,
    mapping-link_transaction v v' u u' c actor now w.db,
  )

  pub resolve_canonical_user_id-IsCoherent :
      (vendor u : Text) (w : World N)
      → IsCoherent w
      → IsCoherent (resolve_canonical_user_id vendor u w).1
  unfolding resolve_canonical_user_id
  resolve_canonical_user_id-IsCoherent vendor u w coherent =
      resolve_vendor-IsCoherent (as_vendor vendor) u w coherent

  pub unlink_identity-IsCoherent :
      (v : Vendor) (u c actor : Text) (w w' : World N)
      → IsCoherent w
      → unlink_identity v u c actor w ≡ some w'
      → IsCoherent w'
  unfolding unlink_identity
  unlink_identity-IsCoherent v u c actor w w' coherent h v' u' = ground (
    arith,
    coherent v' u',
    identity_cache_key_eq v v' u u',
    list_key-ne-key v' u' c,
    mapping-keep_other v v' u u' c w.db.user_identities,
  )

  list_known-IsCoherent :
      (c actor : Text) (o : Option CacheValue) (w : World N)
      → IsCoherent w
      → IsCoherent (list_known c actor o w).1
  list_known-IsCoherent c actor none w coherent v u =
      ground (arith, coherent v u, list_key-ne-key v u c)
  list_known-IsCoherent c actor (some (text t)) w coherent v u = coherent v u
  list_known-IsCoherent c actor (some (identities rows)) w coherent v u = coherent v u

  pub list_by_canonical_user-IsCoherent :
      (c actor : Text) (w : World N)
      → IsCoherent w
      → IsCoherent (list_by_canonical_user c actor w).1
  unfolding list_by_canonical_user
  list_by_canonical_user-IsCoherent c actor w coherent =
      list_known-IsCoherent c actor (w.redis (identity_list_cache_key c)) w coherent

  -- The expiry of any entries keeps the rest.
  pub expire-IsCoherent :
      (keys : List Text) (w : World N)
      → IsCoherent w
      → IsCoherent (record w { redis = cache_del keys w.redis })
  expire-IsCoherent keys w coherent v u = ground (arith, coherent v u)

  -- After a link of a vendor user, whatever was cached, `resolveCanonicalUserId` answers the
  -- new canonical user.
  pub resolve-link_identity :
      (v : Vendor) (u c actor : Text) (now : ℤ) (w : World N)
      → (resolve_canonical_user_id (vendor_text v) u (link_identity v u c actor now w).1).0 ≡ some c
  unfolding link_identity resolve_canonical_user_id
  resolve-link_identity v u c actor now w =
      rw (as_vendor-vendor_text v, resolve_vendor)
        (ground (
          arith,
          identity_cache_key_eq v v u u,
          text_eq_refl u,
          (vendor_eq_iff v v).1 refl,
          mapping-link_transaction v v u u c actor now w.db,
        ))

  -- After an unlink that succeeded, in a table whose vendor users are unique,
  -- `resolveCanonicalUserId` answers null for the user.
  pub resolve-unlink_identity :
      (v : Vendor) (u c actor : Text) (w w' : World N)
      → IsKeyed w.db.user_identities
      → unlink_identity v u c actor w ≡ some w'
      → (resolve_canonical_user_id (vendor_text v) u w').0 ≡ none
  unfolding unlink_identity resolve_canonical_user_id
  resolve-unlink_identity v u c actor w w' keyed h =
      rw (as_vendor-vendor_text v, resolve_vendor)
        (ground (
          arith,
          identity_cache_key_eq v v u u,
          text_eq_refl u,
          (vendor_eq_iff v v).1 refl,
          mapping-keep_self v u c w.db.user_identities keyed,
        ))
