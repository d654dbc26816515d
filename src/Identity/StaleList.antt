-- ===== src/Identity/StaleList.antt =====
-- The list cache of src/identity/identity.service.ts after a link.
use pureplay_analytics_inges.Prelude.{
  ◌≡◌, refl, false, some, List, Text, text_eq, text_eq_refl, ℤ, arith,
}
use pureplay_analytics_inges.Domain.Shot.{Vendor, vendor_eq_iff}
use pureplay_analytics_inges.Database.{IdentityRow}
use pureplay_analytics_inges.World.{World, identities}
use pureplay_analytics_inges.Identity.{
  identity_list_cache_key, identities_of, mapping, link_identity, list_by_canonical_user,
}
use pureplay_analytics_inges.Identity.Keys.{identity_list_cache_key_eq, key-ne-list_key}
use pureplay_analytics_inges.Identity.Mapping.{mapping-link_transaction}

module _ {N : Type 0} where
  -- After a link, whatever was cached, a list of the new canonical user is what the table then
  -- has for it.
  pub list-link_identity :
      (v : Vendor) (u c actor reader : Text) (now : ℤ) (w : World N)
      → (list_by_canonical_user c reader (link_identity v u c actor now w).1).0
        ≡ identities_of c (link_identity v u c actor now w).1.db.user_identities
  unfolding link_identity list_by_canonical_user
  list-link_identity v u c actor reader now w =
      ground (arith, identity_list_cache_key_eq c c, text_eq_refl c, key-ne-list_key v u c)

  -- After a link of a vendor user, a list of any other canonical user that was cached is served
  -- as it was cached, though the table now maps the vendor user to the new one.
  pub list-link_identity_moved :
      (v : Vendor) (u old c actor reader : Text) (now : ℤ) (w : World N) (rows : List IdentityRow)
      → text_eq c old ≡ false
      → w.redis (identity_list_cache_key old) ≡ some (identities rows)
      → ((list_by_canonical_user old reader (link_identity v u c actor now w).1).0 ≡ rows)
        × (mapping v u (link_identity v u c actor now w).1.db.user_identities ≡ some c)
  unfolding link_identity list_by_canonical_user
  list-link_identity_moved v u old c actor reader now w rows other cached = (
    ground (arith, identity_list_cache_key_eq c old, key-ne-list_key v u old),
    ground (
      arith,
      mapping-link_transaction v v u u c actor now w.db,
      text_eq_refl u,
      (vendor_eq_iff v v).1 refl,
    ),
  )
