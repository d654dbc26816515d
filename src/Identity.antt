-- ===== src/Identity.antt =====
-- src/identity/identity.service.ts, with src/shared/audit/audit-log.service.ts.
pub mod Keys
pub mod Mapping
pub mod Coherence
pub mod StaleList
pub mod History
pub mod Backfill
use pureplay_analytics_inges.Prelude.{
  ℕ, suc, Bool, true, false, ◌&&◌, not, Option, none, some, List, [], ◌∷◌, ◌++◌, Text, codes,
  text_eq, ℤ, find, keep, any, length, update_where, is_empty, or_else, if◌then◌else◌,
}
use pureplay_analytics_inges.Domain.Shot.{Vendor, vendor_text, vendor_eq, as_vendor, NormalisedShot}
use pureplay_analytics_inges.Database.{
  Database, IdentityRow, AuditRow, AuditAction, identity_link, identity_unlink, identity_list,
}
use pureplay_analytics_inges.Database.Order.{order_by}
use pureplay_analytics_inges.World.{
  World, Cache, CacheValue, text, identities, cache_set, cache_del,
}

unfoldable pub identity_cache_key : Text → Text → Text
identity_cache_key vendor user = codes "identity:" ++ (vendor ++ (codes ":" ++ user))

unfoldable pub identity_list_cache_key : Text → Text
identity_list_cache_key canonical = codes "identity-list:" ++ canonical

abbrev pub is_identity : Vendor → Text → IdentityRow → Bool
is_identity v u row = vendor_eq v row.vendor && text_eq u row.vendor_user_id

abbrev canonical_of : Option IdentityRow → Option Text
canonical_of none = none
canonical_of (some row) = some row.canonical_user_id

-- The canonical user of a vendor's user in the table.
unfoldable pub mapping : Vendor → Text → List IdentityRow → Option Text
mapping v u rows = canonical_of (find (is_identity v u) rows)

abbrev from_text : Text → Option Text
from_text t = if is_empty t then none else some t

abbrev list_entry : Text → Text → List IdentityRow → AuditRow
list_entry c actor rows = record {
  action = identity_list;
  actor = actor;
  canonical_user_id = c;
  vendor = none;
  vendor_user_id = none;
  result_count = some (length rows);
}

unfoldable pub identities_of : Text → List IdentityRow → List IdentityRow
identities_of c rows =
    order_by (λ row. row.created_at) (keep (λ row. text_eq row.canonical_user_id c) rows)

abbrev pub is_link : Vendor → Text → Text → IdentityRow → Bool
is_link v u c row = is_identity v u row && text_eq row.canonical_user_id c

module _ {N : Type 0} where
  -- `AuditLogService.record`
  abbrev pub record_audit : AuditRow → Database N → Database N
  record_audit entry db = record db { audit_log = db.audit_log ++ entry ∷ [] }

  -- A cached list would not be read as a text; the keys keep the two apart.
  abbrev resolve_known : Vendor → Text → Option CacheValue → World N → Option Text × World N
  resolve_known v u (some (text t)) w = (from_text t, w)
  resolve_known v u (some (identities rows)) w = (none, w)
  resolve_known v u none w =
      let result : Option Text = mapping v u w.db.user_identities in
      (
        result,
        record w {
          redis =
              cache_set (identity_cache_key (vendor_text v) u) (text (or_else result [])) w.redis;
        },
      )

  abbrev resolve_vendor : Option Vendor → Text → World N → Option Text × World N
  resolve_vendor none u w = (none, w)
  resolve_vendor (some v) u w = resolve_known v u (w.redis (identity_cache_key (vendor_text v) u)) w

  unfoldable pub resolve_canonical_user_id : Text → Text → World N → Option Text × World N
  resolve_canonical_user_id vendor u w = resolve_vendor (as_vendor vendor) u w

  abbrev upsert_row :
      Vendor → Text → Text → ℤ → Database N → Option IdentityRow → IdentityRow × Database N
  upsert_row v u c now db (some old) =
      let row : IdentityRow = record old { canonical_user_id = c; updated_at = now } in
      (
        row,
        record db {
          user_identities =
              update_where (is_identity v u)
                (λ r. record r { canonical_user_id = c; updated_at = now }) db.user_identities;
        },
      )
  upsert_row v u c now db none =
      let row : IdentityRow = record {
        id = db.next_identity_id;
        vendor = v;
        vendor_user_id = u;
        canonical_user_id = c;
        created_at = now;
        updated_at = now;
      } in
      (
        row,
        record db {
          user_identities = db.user_identities ++ row ∷ [];
          next_identity_id = suc db.next_identity_id;
        },
      )

  -- The transaction of `linkIdentity`: the upsert and its audit entry.
  unfoldable pub link_transaction :
      Vendor → Text → Text → Text → ℤ → Database N → IdentityRow × Database N
  link_transaction v u c actor now db =
      let (row, db') = upsert_row v u c now db (find (is_identity v u) db.user_identities) in
      (
        row,
        record_audit
            (record {
              action = identity_link;
              actor = actor;
              canonical_user_id = c;
              vendor = some v;
              vendor_user_id = some u;
              result_count = none;
            })
            db',
      )

  abbrev pub lacks_canonical : Vendor → Text → NormalisedShot N → Bool
  lacks_canonical v u s =
      vendor_eq v s.vendor
      && text_eq u s.vendor_user_id
      && elim s.canonical_user_id [ none ↦ true | some c ↦ false ]

  -- The UPDATE that runs after the transaction, on its own.
  unfoldable pub backfill : Vendor → Text → Text → Database N → Database N
  backfill v u c db = record db {
    shots =
        update_where (lacks_canonical v u) (λ s. record s { canonical_user_id = some c }) db.shots;
  }

  -- The answer, and the state when it is given: the backfill is still to run.
  unfoldable pub link_identity : Vendor → Text → Text → Text → ℤ → World N → IdentityRow × World N
  link_identity v u c actor now w =
      let (row, db') = link_transaction v u c actor now w.db in
      (
        row,
        record w {
          db = db';
          redis =
              cache_del (identity_cache_key (vendor_text v) u ∷ identity_list_cache_key c ∷ [])
                w.redis;
        },
      )

  abbrev list_known : Text → Text → Option CacheValue → World N → List IdentityRow × World N
  list_known c actor (some (identities rows)) w =
      (rows, record w { db = record_audit (list_entry c actor rows) w.db })
  list_known c actor (some (text t)) w = ([], w)
  list_known c actor none w =
      let rows : List IdentityRow = identities_of c w.db.user_identities in
      (
        rows,
        record w {
          db = record_audit (list_entry c actor rows) w.db;
          redis = cache_set (identity_list_cache_key c) (identities rows) w.redis;
        },
      )

  -- Both fire-and-forget writes are taken to succeed.
  unfoldable pub list_by_canonical_user : Text → Text → World N → List IdentityRow × World N
  list_by_canonical_user c actor w = list_known c actor (w.redis (identity_list_cache_key c)) w

  -- `none` is the IdentityNotFoundError, on which the transaction is rolled back.
  unfoldable pub unlink_identity : Vendor → Text → Text → Text → World N → Option (World N)
  unlink_identity v u c actor w =
      if any (is_link v u c) w.db.user_identities
      then some (record w {
        db =
            record_audit
              (record {
                action = identity_unlink;
                actor = actor;
                canonical_user_id = c;
                vendor = some v;
                vendor_user_id = some u;
                result_count = none;
              })
              (record w.db {
                user_identities = keep (λ row. not (is_link v u c row)) w.db.user_identities;
              });
        redis =
            cache_del (identity_cache_key (vendor_text v) u ∷ identity_list_cache_key c ∷ [])
              w.redis;
      })
      else none
