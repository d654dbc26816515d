-- ===== src/Examples/Users.antt =====
-- The identity modules on a user "ann" of a vendor, linked to "c1" and then to "c2".
use pureplay_analytics_inges.Prelude.{
  ℕ, ◌≡◌, refl, false, Option, none, some, [], ◌∷◌, codes, text_eq, pos, arith, inl,
}
use pureplay_analytics_inges.Domain.Shot.{trackpro, vendor_text}
use pureplay_analytics_inges.Database.{Database, IdentityRow}
use pureplay_analytics_inges.World.{World, identities, cache_set}
use pureplay_analytics_inges.Identity.{
  identity_list_cache_key, mapping, identities_of, resolve_canonical_user_id, link_identity,
  list_by_canonical_user, unlink_identity,
}
use pureplay_analytics_inges.Identity.Coherence.{resolve-link_identity, resolve-unlink_identity}
use pureplay_analytics_inges.Identity.StaleList.{list-link_identity, list-link_identity_moved}
use pureplay_analytics_inges.Identity.History.{start, next, linked, Inv, resolve-Reach}
use pureplay_analytics_inges.Examples.Samples.{empty_tables, new_world, one_shot}
use pureplay_analytics_inges.Identity.{backfill}
use pureplay_analytics_inges.Identity.Backfill.{AreBackfilled, backfill_complete}

abbrev ann_row : IdentityRow
ann_row = record {
  id = 1;
  vendor = trackpro;
  vendor_user_id = codes "ann";
  canonical_user_id = codes "c1";
  created_at = pos 1;
  updated_at = pos 1;
}

abbrev linked_tables : Database ℕ
linked_tables = record empty_tables { user_identities = ann_row ∷ [] }

-- The table has the link, and the list of "c1" is cached.
abbrev linked_world : World ℕ
linked_world = record new_world {
  db = linked_tables;
  redis =
      cache_set (identity_list_cache_key (codes "c1")) (identities (ann_row ∷ [])) new_world.redis;
}

resolve-link_identity_example :
    (resolve_canonical_user_id
      (vendor_text trackpro)
      (codes "ann")
      (link_identity trackpro (codes "ann") (codes "c2") (codes "ops") (pos 2) linked_world).1).0
    ≡ some (codes "c2")
resolve-link_identity_example =
    resolve-link_identity trackpro (codes "ann") (codes "c2") (codes "ops") (pos 2) linked_world

abbrev unlinked_or : Option (World ℕ) → World ℕ
unlinked_or none = new_world
unlinked_or (some w) = w

abbrev unlinked_world : World ℕ
unlinked_world =
    unlinked_or (unlink_identity trackpro (codes "ann") (codes "c1") (codes "ops") linked_world)

unlinks :
    unlink_identity trackpro (codes "ann") (codes "c1") (codes "ops") linked_world
    ≡ some unlinked_world
unfolding unlink_identity text_eq
unlinks = refl

resolve-unlink_identity_example :
    (resolve_canonical_user_id (vendor_text trackpro) (codes "ann") unlinked_world).0 ≡ none
resolve-unlink_identity_example =
    resolve-unlink_identity trackpro (codes "ann") (codes "c1") (codes "ops") linked_world
      unlinked_world (tt, tt) unlinks

list-link_identity_example :
    (list_by_canonical_user
      (codes "c2")
      (codes "ops")
      (link_identity trackpro (codes "ann") (codes "c2") (codes "ops") (pos 2) linked_world).1).0
    ≡ identities_of
        (codes "c2")
        (link_identity trackpro
          (codes "ann")
          (codes "c2")
          (codes "ops")
          (pos 2)
          linked_world).1.db.user_identities
list-link_identity_example =
    list-link_identity trackpro (codes "ann") (codes "c2") (codes "ops") (codes "ops") (pos 2)
      linked_world

different : text_eq (codes "c2") (codes "c1") ≡ false
unfolding text_eq
different = refl

list_is_cached :
    linked_world.redis (identity_list_cache_key (codes "c1")) ≡ some (identities (ann_row ∷ []))
unfolding identity_list_cache_key text_eq
list_is_cached = refl

list-link_identity_moved_example :
    ((list_by_canonical_user
        (codes "c1")
        (codes "ops")
        (link_identity trackpro (codes "ann") (codes "c2") (codes "ops") (pos 2) linked_world).1).0
      ≡ ann_row ∷ [])
    × (mapping trackpro
          (codes "ann")
          (link_identity trackpro
            (codes "ann")
            (codes "c2")
            (codes "ops")
            (pos 2)
            linked_world).1.db.user_identities
        ≡ some (codes "c2"))
list-link_identity_moved_example =
    list-link_identity_moved trackpro (codes "ann") (codes "c1") (codes "c2") (codes "ops")
      (codes "ops") (pos 2) linked_world (ann_row ∷ []) different list_is_cached

new-Inv : Inv new_world
unfolding mapping
new-Inv = record { coherent = λ v u. inl refl; names = λ v u c h. ground arith; keyed = tt }

resolve-Reach_example :
    (resolve_canonical_user_id
      (vendor_text trackpro)
      (codes "ann")
      (link_identity trackpro (codes "ann") (codes "c2") (codes "ops") (pos 2) new_world).1).0
    ≡ mapping trackpro
        (codes "ann")
        (link_identity trackpro
          (codes "ann")
          (codes "c2")
          (codes "ops")
          (pos 2)
          new_world).1.db.user_identities
resolve-Reach_example =
    resolve-Reach new_world
      (link_identity trackpro (codes "ann") (codes "c2") (codes "ops") (pos 2) new_world).1 trackpro
      (codes "ann") new-Inv
      (next start (linked trackpro (codes "ann") (codes "c2") (codes "ops") (pos 2) refl))

backfill_complete_example :
    AreBackfilled trackpro
      (codes "ann")
      (codes "c1")
      one_shot.shots
      (backfill trackpro (codes "ann") (codes "c1") one_shot).shots
    × (backfill trackpro (codes "ann") (codes "c1") one_shot
        ≡ record one_shot { shots = (backfill trackpro (codes "ann") (codes "c1") one_shot).shots })
backfill_complete_example = backfill_complete trackpro (codes "ann") (codes "c1") one_shot
