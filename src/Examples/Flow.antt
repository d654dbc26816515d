-- ===== src/Examples/Flow.antt =====
-- One stored shot that is announced twice, and a job that is worked off as a duplicate of it.
use pureplay_analytics_inges.Prelude.{
  text_eq, ℕ, ◌++◌, ◌≡◌, refl, inl, Bool, true, some, [], ◌∷◌, codes, pos, here, ◌-ℤ◌, arith,
}
use pureplay_analytics_inges.Platform.Sample.{whole_numbers, plain, blank}
use pureplay_analytics_inges.Domain.Shot.{NormalisedShot, as_vendor, vendor_text, trackpro}
use pureplay_analytics_inges.Database.{OutboxRow, insert_shot, satisfies_checks}
use pureplay_analytics_inges.World.{World, duplicate_exact}
use pureplay_analytics_inges.Identity.{resolve_canonical_user_id, mapping}
use pureplay_analytics_inges.Ingestion.Repository.{
  upsert_if_new, has_excessive_clock_skew, exceeds_skew,
}
use pureplay_analytics_inges.Ingestion.Processor.{
  Progress, started, resolved, finished, count_outcome, advance, with_canonical,
}
use pureplay_analytics_inges.Ingestion.Outbox.{publish_pending}
use pureplay_analytics_inges.Ingestion.Pipeline.{System, Step, Reach, with_db}
use pureplay_analytics_inges.Ingestion.Pipeline.Ledger.{LedgerStep, IsConsistent}
use pureplay_analytics_inges.Ingestion.Pipeline.Tables.{ledger_of}
use pureplay_analytics_inges.Ingestion.Pipeline.Refines.{Step-LedgerStep, Reach-IsConsistent}
use pureplay_analytics_inges.Ingestion.Pipeline.Placed.{ArePlaced, Reach-ArePlaced}
use pureplay_analytics_inges.Examples.Samples.{one_shot, new_world, first_job, first_shot}

abbrev waiting : System ℕ
waiting = record { world = record new_world { db = one_shot }; attempts = []; emitted = [] }

abbrev all_listen : NormalisedShot ℕ → Bool
all_listen shot = true

abbrev none_locked : OutboxRow ℕ → Bool
none_locked row = true

abbrev told_once : System ℕ
told_once = record waiting { emitted = (publish_pending all_listen none_locked one_shot).0 }

abbrev told_twice : System ℕ
told_twice = with_db (publish_pending all_listen none_locked one_shot).1 (record told_once {
  emitted = told_once.emitted ++ (publish_pending all_listen none_locked one_shot).0;
})

waiting-IsConsistent : IsConsistent (ledger_of waiting)
waiting-IsConsistent = record {
  distinct = (tt, tt);
  numbered = (omega arith, tt, tt);
  typed = (refl, tt);
  covered = (inl (_, here, refl), tt);
  waiting_stored = ((_, here, refl), tt);
  announced_stored = tt;
}

crashed : Step waiting told_once
crashed = Step.rolled_back all_listen none_locked refl

Step-LedgerStep_example : LedgerStep (ledger_of waiting) (ledger_of told_once)
Step-LedgerStep_example = Step-LedgerStep waiting told_once waiting-IsConsistent crashed

twice : Reach waiting told_twice
twice = Reach.next (Reach.next Reach.start crashed) (Step.published all_listen none_locked refl)

Reach-IsConsistent_example : IsConsistent (ledger_of told_twice)
Reach-IsConsistent_example = Reach-IsConsistent waiting told_twice waiting-IsConsistent twice

abbrev resolved_world : World ℕ
resolved_world = (resolve_canonical_user_id (vendor_text trackpro) (codes "ann") waiting.world).1

abbrev resolved_stage : Progress ℕ
resolved_stage = resolved (
    with_canonical first_shot
      (resolve_canonical_user_id (vendor_text trackpro) (codes "ann") waiting.world).0)

first_await :
    advance (pos 9) first_job started waiting.world ≡ some (resolved_stage, resolved_world)
unfolding advance has_excessive_clock_skew exceeds_skew ◌-ℤ◌
first_await = refl

abbrev taken_up : System ℕ
taken_up = record waiting { attempts = record { job = first_job; stage = started } ∷ [] }

abbrev resolved_job : System ℕ
resolved_job = record waiting {
  world = resolved_world;
  attempts = record { job = first_job; stage = resolved_stage } ∷ [];
}

worked_on : Reach waiting resolved_job
worked_on = Reach.next (Reach.next Reach.start (Step.taken first_job refl)) (
    Step.worked (pos 9) [] (record { job = first_job; stage = started }) [] resolved_stage
      resolved_world refl first_await refl)

abbrev settled_world : World ℕ
settled_world = count_outcome first_job duplicate_exact resolved_world

second_await :
    advance (pos 10) first_job resolved_stage resolved_world
    ≡ some (finished duplicate_exact, settled_world)
unfolding advance upsert_if_new insert_shot satisfies_checks resolve_canonical_user_id as_vendor
    text_eq mapping
second_await = refl

-- The job of the shot that is stored already ends as a duplicate.
abbrev settled_job : System ℕ
settled_job = record waiting {
  world = settled_world;
  attempts = record { job = first_job; stage = finished duplicate_exact } ∷ [];
}

settled : Reach waiting settled_job
settled = Reach.next worked_on (
    Step.worked (pos 10) [] (record { job = first_job; stage = resolved_stage }) []
      (finished duplicate_exact) settled_world refl second_await refl)

Reach-ArePlaced_example : ArePlaced (ledger_of settled_job) settled_job.attempts
Reach-ArePlaced_example = Reach-ArePlaced waiting settled_job waiting-IsConsistent tt settled
