-- ===== src/Identity/History.antt =====
-- Any history of the operations of src/identity/identity.service.ts, with entries of Redis expiring in
-- between.
use pureplay_analytics_inges.Prelude.{
  ◌≡◌, ap, true, false, not, some, List, Text, ℤ, arith, Bool-cases, keep, is_empty, any,
}
use pureplay_analytics_inges.Domain.Shot.{Vendor, vendor_text}
use pureplay_analytics_inges.World.{World, cache_del}
use pureplay_analytics_inges.Identity.{
  is_link, mapping, resolve_canonical_user_id, link_identity, list_by_canonical_user,
  unlink_identity,
}
use pureplay_analytics_inges.Identity.Mapping.{
  IsKeyed, same_user, mapping-link_transaction, mapping-keep_other, mapping-keep_self,
  link_transaction-IsKeyed, same_user-mapping, keep-IsKeyed,
}
use pureplay_analytics_inges.Identity.Coherence.{
  IsCoherent, HasNames, resolve_canonical_user_id-mapping, resolve_canonical_user_id-IsCoherent,
  link_identity-IsCoherent, unlink_identity-IsCoherent, list_by_canonical_user-IsCoherent,
  expire-IsCoherent,
}

module _ {N : Type 0} where
  pub data Step (w : World N) : World N → Type 0 where
    resolved : (vendor u : Text) → Step w (resolve_canonical_user_id vendor u w).1
    linked :
        (v : Vendor) (u c actor : Text) (now : ℤ)
        → is_empty c ≡ false
        → Step w (link_identity v u c actor now w).1
    unlinked :
        (v : Vendor) (u c actor : Text) {w' : World N}
        → unlink_identity v u c actor w ≡ some w'
        → Step w w'
    listed : (c actor : Text) → Step w (list_by_canonical_user c actor w).1
    expired : (keys : List Text) → Step w (record w { redis = cache_del keys w.redis })

  pub data Reach (s : World N) : World N → Type 0 where
    start : Reach s s
    next : {w w' : World N} → Reach s w → Step w w' → Reach s w'

  pub record Inv (w : World N) : Type 0 where
    pub coherent : IsCoherent w
    pub names : HasNames w
    pub keyed : IsKeyed w.db.user_identities

  identities-resolve :
      (vendor u : Text) (w : World N)
      → (resolve_canonical_user_id vendor u w).1.db.user_identities ≡ w.db.user_identities
  unfolding resolve_canonical_user_id
  identities-resolve vendor u w = ground arith

  identities-list :
      (c actor : Text) (w : World N)
      → (list_by_canonical_user c actor w).1.db.user_identities ≡ w.db.user_identities
  unfolding list_by_canonical_user
  identities-list c actor w = ground arith

  link_identity-HasNames :
      (v : Vendor) (u c actor : Text) (now : ℤ) (w : World N)
      → is_empty c ≡ false
      → HasNames w
      → HasNames (link_identity v u c actor now w).1
  unfolding link_identity
  link_identity-HasNames v u c actor now w named names v' u' c' h =
      ground (arith, names v' u' c', mapping-link_transaction v v' u u' c actor now w.db)

  identities-unlink :
      (v : Vendor) (u c actor : Text) (w w' : World N)
      → unlink_identity v u c actor w ≡ some w'
      → (any (is_link v u c) w.db.user_identities ≡ true)
        × (w'.db.user_identities ≡ keep (λ row. not (is_link v u c row)) w.db.user_identities)
  unfolding unlink_identity
  identities-unlink v u c actor w w' e = ground arith

  unlink_identity-HasNames :
      (v : Vendor) (u c actor : Text) (w w' : World N)
      → IsKeyed w.db.user_identities
      → HasNames w
      → unlink_identity v u c actor w ≡ some w'
      → HasNames w'
  unlink_identity-HasNames v u c actor w w' keyed names e v' u' c' h =
      let (linked_row, same) = identities-unlink v u c actor w w' e in
      ground (
        arith,
        names v' u' c',
        ap (mapping v' u') same,
        mapping-keep_self v u c w.db.user_identities keyed linked_row,
        mapping-keep_other v v' u u' c w.db.user_identities,
        same_user-mapping v v' u u' (keep (λ row. not (is_link v u c row)) w.db.user_identities),
        Bool-cases (same_user v u v' u'),
      )

  link_identity-IsKeyed :
      (v : Vendor) (u c actor : Text) (now : ℤ) (w : World N)
      → IsKeyed w.db.user_identities
      → IsKeyed (link_identity v u c actor now w).1.db.user_identities
  unfolding link_identity
  link_identity-IsKeyed v u c actor now w k = link_transaction-IsKeyed v u c actor now w.db k

  Step-Inv : {w w' : World N} → Step w w' → Inv w → Inv w'
  Step-Inv {w} (resolved vendor u) i = record {
    coherent = resolve_canonical_user_id-IsCoherent vendor u w i.coherent;
    names = λ v t c h. i.names v t c (rw (identities-resolve vendor u w) at h);
    keyed = rw (identities-resolve vendor u w) i.keyed;
  }
  Step-Inv {w} (linked v u c actor now named) i = record {
    coherent = link_identity-IsCoherent v u c actor now w i.coherent;
    names = link_identity-HasNames v u c actor now w named i.names;
    keyed = link_identity-IsKeyed v u c actor now w i.keyed;
  }
  Step-Inv {w} {w'} (unlinked v u c actor e) i = record {
    coherent = unlink_identity-IsCoherent v u c actor w w' i.coherent e;
    names = unlink_identity-HasNames v u c actor w w' i.keyed i.names e;
    keyed =
        rw (identities-unlink v u c actor w w' e).1
          (keep-IsKeyed v u c w.db.user_identities i.keyed);
  }
  Step-Inv {w} (listed c actor) i = record {
    coherent = list_by_canonical_user-IsCoherent c actor w i.coherent;
    names = λ v t d h. i.names v t d (rw (identities-list c actor w) at h);
    keyed = rw (identities-list c actor w) i.keyed;
  }
  Step-Inv {w} (expired keys) i = record {
    coherent = expire-IsCoherent keys w i.coherent;
    names = i.names;
    keyed = i.keyed;
  }

  pub Reach-Inv : {s w : World N} → Inv s → Reach s w → Inv w
  Reach-Inv i start = i
  Reach-Inv i (next r st) = Step-Inv st (Reach-Inv i r)

  -- From a state whose resolve cache agrees with the table, whose canonical users are not empty
  -- and whose vendor users are unique, any sequence of resolves, links to users that are not
  -- empty, unlinks, lists and expiries of cache entries leads to a state in which
  -- `resolveCanonicalUserId` answers what the table says.
  pub resolve-Reach :
      (s w : World N) (v : Vendor) (u : Text)
      → Inv s
      → Reach s w
      → (resolve_canonical_user_id (vendor_text v) u w).0 ≡ mapping v u w.db.user_identities
  resolve-Reach s w v u i r =
      let j = Reach-Inv i r in resolve_canonical_user_id-mapping v u w j.coherent j.names
