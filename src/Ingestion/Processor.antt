-- ===== src/Ingestion/Processor.antt =====
-- src/ingestion/shot-ingestion.processor.ts. A job is worked off in stages, each from one await of the
-- database to the next, so that other workers may run and this one may die in between.
pub mod Finishes
pub mod Retry
use pureplay_analytics_inges.Prelude.{
  ℕ, zero, suc, Bool, true, false, Option, none, some, Text, codes, ℤ, if◌then◌else◌,
}
use pureplay_analytics_inges.Platform.{Number, Platform, Serialiser}
use pureplay_analytics_inges.Domain.Shot.{NormalisedShot, vendor_text}
use pureplay_analytics_inges.Database.{Database}
use pureplay_analytics_inges.World.{
  World, Outcome, rejected_clock, duplicate_exact, duplicate_near, accepted, failed, shots_total,
  near_duplicates, jobs_failed, e2e_lag, inc,
}
use pureplay_analytics_inges.Identity.{resolve_canonical_user_id}
use pureplay_analytics_inges.Ingestion.Queue.{ShotJob}
use pureplay_analytics_inges.Ingestion.Redact.{redact_pii}
use pureplay_analytics_inges.Ingestion.Repository.{
  UpsertResult, upsert_if_new, check_and_flag_near_duplicates, update_outbox_event_duplicate_of,
  record_ingestion_failure, has_excessive_clock_skew,
}

pub data Progress (N : Type 0) : Type 0 where
  started : Progress N
  resolved : NormalisedShot N → Progress N
  inserted : NormalisedShot N → Text → Progress N
  flagged : Text → Text → Progress N
  finished : Outcome → Progress N

module _ {N : Type 0} where
  abbrev pub shot_of : ShotJob N → NormalisedShot N
  shot_of job = job.normalised_shot

  abbrev pub count_outcome : ShotJob N → Outcome → World N → World N
  count_outcome job outcome w =
      inc (shots_total (vendor_text (shot_of job).vendor) outcome (shot_of job).parser_version) w

  abbrev pub with_canonical : NormalisedShot N → Option Text → NormalisedShot N
  with_canonical shot none = shot
  with_canonical shot (some c) = record shot { canonical_user_id = some c }

  -- `vendor` and the version are "unknown" where the job itself is.
  unfoldable pub on_failed : Option (ShotJob N) → World N → World N
  on_failed none w =
      inc (shots_total (codes "unknown") failed (codes "unknown"))
        (inc (jobs_failed (codes "unknown")) w)
  on_failed (some job) w =
      count_outcome job failed (inc (jobs_failed (vendor_text (shot_of job).vendor)) w)

  after_upsert :
      ShotJob N
      → NormalisedShot N
      → World N
      → Option (UpsertResult × Database N)
      → Option (Progress N × World N)
  after_upsert job shot w none = none
  after_upsert job shot w (some (r, db)) =
      let w' : World N = record w { db = db } in
      if r.inserted
      then some (inserted shot r.canonical_shot_id, w')
      else some (finished duplicate_exact, count_outcome job duplicate_exact w')

  after_check :
      ShotJob N → Text → World N → Option Text × Database N → Option (Progress N × World N)
  after_check job id w (none, db) = some (
    finished accepted,
    inc (e2e_lag (vendor_text (shot_of job).vendor))
        (count_outcome job accepted (record w { db = db })),
  )
  after_check job id w (some origin, db) = some (
    flagged id origin,
    count_outcome job duplicate_near
        (inc (near_duplicates (vendor_text (shot_of job).vendor)) (record w { db = db })),
  )

module _ {N : Type 0} ⦃num : Number N⦄ ⦃p : Platform⦄ ⦃ser : Serialiser N⦄ where
  reject_clock : ShotJob N → World N → World N
  reject_clock job w = count_outcome job rejected_clock (record w {
    db =
        record_ingestion_failure
          (record {
            vendor = (shot_of job).vendor;
            received_at_utc = job.received_at_utc;
            raw_body = redact_pii (shot_of job).raw_payload;
            http_status = 0;
            error_code = codes "CLOCK_SKEW_EXCESSIVE";
            captured_at_utc = (shot_of job).captured_at_utc;
            correlation_id = job.correlation_id;
          })
          w.db;
  })

  resolve_user : ShotJob N → World N → Progress N × World N
  resolve_user job w =
      let (canonical, w') =
        resolve_canonical_user_id (vendor_text (shot_of job).vendor) (shot_of job).vendor_user_id
          w in
      (resolved (with_canonical (shot_of job) canonical), w')

  -- One stage of `process`; `none` is an exception of the database, on which BullMQ retries.
  unfoldable pub advance : ℤ → ShotJob N → Progress N → World N → Option (Progress N × World N)
  unfolding after_upsert after_check reject_clock resolve_user
  advance now job started w =
      if has_excessive_clock_skew (shot_of job).captured_at_utc job.received_at_utc
      then some (finished rejected_clock, reject_clock job w)
      else some (resolve_user job w)
  advance now job (resolved shot) w = after_upsert job shot w (upsert_if_new shot now w.db)
  advance now job (inserted shot id) w =
      after_check job id w (check_and_flag_near_duplicates shot w.db)
  advance now job (flagged id origin) w = some (
    finished duplicate_near,
    inc (e2e_lag (vendor_text (shot_of job).vendor))
        (record w { db = update_outbox_event_duplicate_of id origin w.db }),
  )
  advance now job (finished outcome) w = some (finished outcome, w)

  -- At most four stages are left after any of them.
  unfoldable pub run :
      ℕ → ℤ → ShotJob N → Option (Progress N × World N) → Option (Progress N × World N)
  unfolding advance
  run fuel now job none = none
  run zero now job (some (stage, w)) = some (stage, w)
  run (suc fuel) now job (some (stage, w)) = run fuel now job (advance now job stage w)

  unfoldable pub process : ℤ → ShotJob N → World N → Option (Progress N × World N)
  unfolding run
  process now job w = run 4 now job (some (started, w))
