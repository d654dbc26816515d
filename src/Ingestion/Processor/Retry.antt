-- ===== src/Ingestion/Processor/Retry.antt =====
-- A job of src/ingestion/shot-ingestion.processor.ts that is worked off again after its worker has
-- died behind the insertion of its shot.
use pureplay_analytics_inges.Prelude.{
  ◌≡◌, refl, sym, ◌∙◌, ap, Bool, true, false, Option, none, some, Text, ℤ, arith, if◌then◌else◌,
}
use pureplay_analytics_inges.Platform.{Number, Platform, Serialiser}
use pureplay_analytics_inges.Domain.Shot.{NormalisedShot}
use pureplay_analytics_inges.Database.{Database, satisfies_checks}
use pureplay_analytics_inges.World.{World, duplicate_exact, rejected_clock}
use pureplay_analytics_inges.Identity.{resolve_canonical_user_id}
use pureplay_analytics_inges.Ingestion.Queue.{ShotJob}
use pureplay_analytics_inges.Ingestion.Repository.{
  UpsertResult, upsert_if_new, has_excessive_clock_skew,
}
use pureplay_analytics_inges.Ingestion.Repository.Upsert.{
  upsert_if_new-same_key, upsert_if_new-satisfies_checks,
}
use pureplay_analytics_inges.Ingestion.Processor.{
  resolved, finished, with_canonical, count_outcome, reject_clock, resolve_user, after_upsert,
  advance, run, process,
}

module _ {N : Type 0} where
  pub resolve_keeps_db :
      (vendor u : Text) (w : World N) → (resolve_canonical_user_id vendor u w).1.db ≡ w.db
  unfolding resolve_canonical_user_id
  resolve_keeps_db vendor u w = ground arith

  pub same_vendor :
      (s : NormalisedShot N) (c : Option Text) → (with_canonical s c).vendor ≡ s.vendor
  same_vendor s none = refl
  same_vendor s (some c) = refl

  pub same_idempotency_key :
      (s : NormalisedShot N) (c : Option Text)
      → (with_canonical s c).idempotency_key ≡ s.idempotency_key
  same_idempotency_key s none = refl
  same_idempotency_key s (some c) = refl

module _ {N : Type 0} ⦃num : Number N⦄ where
  satisfies_checks-with_canonical :
      (s : NormalisedShot N) (c : Option Text)
      → satisfies_checks (with_canonical s c) ≡ satisfies_checks s
  unfolding satisfies_checks
  satisfies_checks-with_canonical s none = refl
  satisfies_checks-with_canonical s (some c) = refl

module _ {N : Type 0} ⦃num : Number N⦄ ⦃p : Platform⦄ ⦃ser : Serialiser N⦄ (job : ShotJob N) where
  run-known :
      (c : Option Text) (later : ℤ) (w : World N) (id : Text)
      → upsert_if_new (with_canonical job.normalised_shot c) later w.db
        ≡ some (record { inserted = false; canonical_shot_id = id }, w.db)
      → run 3 later job (some (resolved (with_canonical job.normalised_shot c), w))
        ≡ some (finished duplicate_exact, count_outcome job duplicate_exact w)
  unfolding run advance after_upsert
  run-known c later w id e =
      ap (λ u. run 2 later job (after_upsert job (with_canonical job.normalised_shot c) w u)) e

  run-started :
      (later : ℤ) (w : World N) (skewed : Bool)
      → skewed ≡ false
      → run 3 later job (
          if skewed
          then some (finished rejected_clock, reject_clock job w)
          else some (resolve_user job w))
        ≡ run 3 later job (some (resolve_user job w))
  run-started later w true e = cc
  run-started later w false e = refl

  -- The insertion of the shot, with whatever canonical user, is answered as known.
  upsert_if_new-retried :
      (c d : Option Text) (now later : ℤ) (db : Database N) (db' : Database N) (r : UpsertResult)
      → upsert_if_new (with_canonical job.normalised_shot c) now db ≡ some (r, db')
      → upsert_if_new (with_canonical job.normalised_shot d) later db'
        ≡ some (record { inserted = false; canonical_shot_id = r.canonical_shot_id }, db')
  upsert_if_new-retried c d now later db db' r h =
      let s = job.normalised_shot in
      upsert_if_new-same_key (with_canonical s c) (with_canonical s d) now later db db' r
        (same_vendor s c ∙ sym (same_vendor s d))
        (same_idempotency_key s c ∙ sym (same_idempotency_key s d))
        (satisfies_checks-with_canonical s d
          ∙ sym (satisfies_checks-with_canonical s c)
          ∙ upsert_if_new-satisfies_checks (with_canonical s c) now db _ h)
        h

  -- A job in the clock window that is worked off again on the tables that an `upsertIfNew` of
  -- its shot has left, whatever the caches hold, ends as an exact duplicate and leaves the
  -- tables as they were, so its near-duplicate check is not made.
  pub process_retried :
      (c : Option Text) (now later : ℤ) (db : Database N) (w : World N) (r : UpsertResult)
      → has_excessive_clock_skew job.normalised_shot.captured_at_utc job.received_at_utc ≡ false
      → upsert_if_new (with_canonical job.normalised_shot c) now db ≡ some (r, w.db)
      → (w' : World N) × (process later job w ≡ some (finished duplicate_exact, w'))
        × (w'.db ≡ w.db)
  unfolding process run advance resolve_user
  process_retried c now later db w r skew h =
      let w1 : World N = (resolve_user job w).1 in
      let kept : w1.db ≡ w.db = resolve_keeps_db _ _ w in
      let again = upsert_if_new-retried c _ now later db w.db r h in
      (
        count_outcome job duplicate_exact w1,
        run-started later w _ skew ∙ run-known _ later w1 r.canonical_shot_id (rw kept again),
        kept,
      )
