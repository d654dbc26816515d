-- ===== src/Ingestion/Processor/Finishes.antt =====
-- How a job ends: src/ingestion/shot-ingestion.processor.ts.
use mathlib.Core.Path.{subst}
use pureplay_analytics_inges.Prelude.{
  ◌≡◌, refl, inl, inr, Bool, true, false, Bool-cases, Option, none, some, [], ◌∷◌, ◌++◌, Text,
  codes, ℤ, if◌then◌else◌,
}
use pureplay_analytics_inges.Platform.{Number, Platform, Serialiser}
use pureplay_analytics_inges.Domain.Shot.{NormalisedShot, vendor_text}
use pureplay_analytics_inges.Database.{Database, FailureRow}
use pureplay_analytics_inges.Identity.{resolve_canonical_user_id}
use pureplay_analytics_inges.World.{
  World, rejected_clock, duplicate_exact, duplicate_near, accepted,
}
use pureplay_analytics_inges.Ingestion.Queue.{ShotJob}
use pureplay_analytics_inges.Ingestion.Repository.{
  UpsertResult, upsert_if_new, check_and_flag_near_duplicates, has_excessive_clock_skew,
  update_outbox_event_duplicate_of, record_ingestion_failure,
}
use pureplay_analytics_inges.Ingestion.Repository.Upsert.{Upserted, upsert_if_new-Upserted}
use pureplay_analytics_inges.Ingestion.Repository.Origin.{
  Checked, check_and_flag_near_duplicates-Checked,
}
use pureplay_analytics_inges.Ingestion.Processor.{
  Progress, resolved, finished, after_upsert, after_check, advance, run, process, reject_clock,
  resolve_user, with_canonical,
}
use pureplay_analytics_inges.Ingestion.Processor.Retry.{resolve_keeps_db}

module _ {N : Type 0} ⦃num : Number N⦄ ⦃p : Platform⦄ ⦃ser : Serialiser N⦄ where
  -- What storing a shot comes to, from the tables before: an exception of the insertion, a shot of a
  -- known key, a new one that is near to another, or a new one that is not.
  pub data Stored (now : ℤ) (shot : NormalisedShot N) (db : Database N)
      (r : Option (Progress N × World N)) : Type 0 where
    refused : upsert_if_new shot now db ≡ none → r ≡ none → Stored now shot db r
    exact :
        (u : UpsertResult) (w : World N)
        → Upserted shot now db u w.db
        → u.inserted ≡ false
        → r ≡ some (finished duplicate_exact, w)
        → Stored now shot db r
    near :
        (u : UpsertResult) (inserted flagged : Database N) (origin : Text) (w : World N)
        → Upserted shot now db u inserted
        → u.inserted ≡ true
        → Checked shot inserted (some origin) flagged
        → r ≡ some (finished duplicate_near, w)
        → w.db ≡ update_outbox_event_duplicate_of u.canonical_shot_id origin flagged
        → Stored now shot db r
    apart :
        (u : UpsertResult) (inserted : Database N) (w : World N)
        → Upserted shot now db u inserted
        → u.inserted ≡ true
        → Checked shot inserted none w.db
        → r ≡ some (finished accepted, w)
        → Stored now shot db r

  -- What a job comes to: a rejection that only adds a failure, or what storing its shot, with the
  -- canonical user that is resolved, comes to.
  pub data Processed (now : ℤ) (job : ShotJob N) (w : World N) (r : Option (Progress N × World N))
      : Type 0 where
    skewed :
        (failure : FailureRow) (w' : World N)
        → has_excessive_clock_skew job.normalised_shot.captured_at_utc job.received_at_utc ≡ true
        → r ≡ some (finished rejected_clock, w')
        → w'.db ≡ record w.db { ingestion_failures = w.db.ingestion_failures ++ failure ∷ [] }
        → failure.vendor ≡ job.normalised_shot.vendor
        → failure.error_code ≡ codes "CLOCK_SKEW_EXCESSIVE"
        → failure.captured_at_utc ≡ job.normalised_shot.captured_at_utc
        → Processed now job w r
    timely :
        has_excessive_clock_skew job.normalised_shot.captured_at_utc job.received_at_utc ≡ false
        → Stored now
            (with_canonical job.normalised_shot
              (resolve_canonical_user_id
                (vendor_text job.normalised_shot.vendor)
                job.normalised_shot.vendor_user_id
                w).0)
            w.db
            r
        → Processed now job w r

module _ {N : Type 0} ⦃num : Number N⦄ ⦃p : Platform⦄ ⦃ser : Serialiser N⦄ (now : ℤ)
    (job : ShotJob N) where
  after_check-Stored :
      (shot : NormalisedShot N) (db : Database N) (u : UpsertResult) (w : World N) (o : Option Text)
      (after : Database N)
      → Upserted shot now db u w.db
      → u.inserted ≡ true
      → Checked shot w.db o after
      → Stored now shot db (run 1 now job (after_check job u.canonical_shot_id w (o, after)))
  unfolding run advance after_check
  after_check-Stored shot db u w none after h i c = Stored.apart u w.db _ h i c refl
  after_check-Stored shot db u w (some origin) after h i c =
      Stored.near u w.db after origin _ h i c refl refl

  after_upsert-Stored :
      (shot : NormalisedShot N) (w : World N) (r : Option (UpsertResult × Database N))
      → upsert_if_new shot now w.db ≡ r
      → Stored now shot w.db (run 2 now job (after_upsert job shot w r))
  unfolding run advance after_upsert
  after_upsert-Stored shot w none e = Stored.refused e refl
  after_upsert-Stored shot w (some (u, db)) e =
      let h = upsert_if_new-Upserted shot now w.db db u e in
      elim (Bool-cases u.inserted) [
        | inl i ↦ rw i (
            after_check-Stored shot w.db u (record w { db = db })
              (check_and_flag_near_duplicates shot db).0 (check_and_flag_near_duplicates shot db).1
              h i (check_and_flag_near_duplicates-Checked shot db))
        | inr i ↦ rw i (Stored.exact u _ h i refl)
      ]

  Stored-resolved :
      (shot : NormalisedShot N) (w : World N)
      → Stored now shot w.db (run 3 now job (some (resolved shot, w)))
  unfolding run advance
  Stored-resolved shot w = after_upsert-Stored shot w (upsert_if_new shot now w.db) refl

  started-Processed :
      (w : World N) (skew : Bool)
      → has_excessive_clock_skew job.normalised_shot.captured_at_utc job.received_at_utc ≡ skew
      → Processed now job w (
          run 3 now job (
            if skew
            then some (finished rejected_clock, reject_clock job w)
            else some (resolve_user job w)))
  unfolding run advance resolve_user reject_clock record_ingestion_failure
  started-Processed w true e = Processed.skewed _ _ e refl refl refl refl refl
  started-Processed w false e =
      let w1 : World N = (resolve_user job w).1 in
      let shot : NormalisedShot N =
        with_canonical job.normalised_shot
          (resolve_canonical_user_id (vendor_text job.normalised_shot.vendor)
            job.normalised_shot.vendor_user_id w).0 in
      Processed.timely e (
        subst (λ db. Stored now shot db (run 3 now job (some (resolved shot, w1))))
          (resolve_keeps_db _ _ w) (Stored-resolved shot w1))

  -- A job outside the clock window ends as rejected, and the tables only get its failure. Any
  -- other ends as what storing its shot, with the canonical user that is resolved, comes to: it
  -- throws, with no outcome, only if the insertion does; it is an exact duplicate and the
  -- tables are as they were if the key was known; a new shot is near to the origin that the
  -- check finds, and then its event names it, or is accepted if the check finds none.
  pub process-Processed : (w : World N) → Processed now job w (process now job w)
  unfolding process run advance
  process-Processed w =
      started-Processed w
        (has_excessive_clock_skew job.normalised_shot.captured_at_utc job.received_at_utc) refl
