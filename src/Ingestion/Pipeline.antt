-- ===== src/Ingestion/Pipeline.antt =====
-- The workers, the publisher and the identity routes on one database, in any order. The processor of
-- src/ingestion/shot-ingestion.processor.ts moves a job from one await to the next, the publisher is
-- that of src/ingestion/outbox-publisher.service.ts.
pub mod Ledger
pub mod Tables
pub mod Working
pub mod Publishing
pub mod Refines
pub mod Stages
pub mod Placed
use pureplay_analytics_inges.Prelude.{ℕ, ◌≡◌, Bool, Option, some, List, [], ◌∷◌, ◌++◌, Text, ℤ}
use pureplay_analytics_inges.Platform.{Number, Platform, Serialiser}
use pureplay_analytics_inges.Domain.Shot.{NormalisedShot, Vendor}
use pureplay_analytics_inges.Database.{Database, OutboxRow}
use pureplay_analytics_inges.World.{World}
use pureplay_analytics_inges.Identity.{backfill}
use pureplay_analytics_inges.Identity.History
use pureplay_analytics_inges.Ingestion.Queue.{ShotJob}
use pureplay_analytics_inges.Ingestion.Outbox.{publish_pending}
use pureplay_analytics_inges.Ingestion.Processor.{Progress, started, advance, on_failed}

-- A job that a worker has or that waits, and the stage that it is at.
pub record Attempt (N : Type 0) : Type 0 where
  pub job : ShotJob N
  pub stage : Progress N

-- `emitted` are the events that the listeners have been given so far.
pub record System (N : Type 0) : Type 0 where
  pub world : World N
  pub attempts : List (Attempt N)
  pub emitted : List (NormalisedShot N)

module _ {N : Type 0} where
  abbrev pub with_db : Database N → System N → System N
  with_db db s = record s { world = record s.world { db = db } }

module _ {N : Type 0} ⦃num : Number N⦄ ⦃p : Platform⦄ ⦃ser : Serialiser N⦄ where
  pub data Step (s t : System N) : Type 0 where
    -- A job is taken up. The queue may deliver a job more than once.
    taken :
        (job : ShotJob N)
        → t ≡ record s { attempts = record { job = job; stage = started } ∷ s.attempts }
        → Step s t
    -- A worker runs a job up to its next await.
    worked :
        (now : ℤ) (front : List (Attempt N)) (a : Attempt N) (back : List (Attempt N))
        (stage : Progress N) (w : World N)
        → s.attempts ≡ front ++ a ∷ back
        → advance now a.job a.stage s.world ≡ some (stage, w)
        → t
          ≡ record s { world = w; attempts = front ++ record { job = a.job; stage = stage } ∷ back }
        → Step s t
    -- A worker dies, and the job is retried from its start.
    retried :
        (front : List (Attempt N)) (a : Attempt N) (back : List (Attempt N))
        → s.attempts ≡ front ++ a ∷ back
        → t ≡ record s { attempts = front ++ record { job = a.job; stage = started } ∷ back }
        → Step s t
    -- A stage throws: the failed attempt is reported, and the job is retried from its start.
    thrown :
        (front : List (Attempt N)) (a : Attempt N) (back : List (Attempt N))
        → s.attempts ≡ front ++ a ∷ back
        → t ≡ record s {
          world = on_failed (some a.job) s.world;
          attempts = front ++ record { job = a.job; stage = started } ∷ back;
        }
        → Step s t
    -- The last attempt of a job throws.
    given_up :
        (front : List (Attempt N)) (a : Attempt N) (back : List (Attempt N))
        → s.attempts ≡ front ++ a ∷ back
        → t ≡ record s { world = on_failed (some a.job) s.world; attempts = front ++ back }
        → Step s t
    -- A cycle of the publisher.
    published :
        (listeners : NormalisedShot N → Bool) (unlocked : OutboxRow N → Bool)
        → t
          ≡ with_db (publish_pending listeners unlocked s.world.db).1 (record s {
            emitted = s.emitted ++ (publish_pending listeners unlocked s.world.db).0;
          })
        → Step s t
    -- A cycle that dies between its events and its commit.
    rolled_back :
        (listeners : NormalisedShot N → Bool) (unlocked : OutboxRow N → Bool)
        → t ≡ record s { emitted = s.emitted ++ (publish_pending listeners unlocked s.world.db).0 }
        → Step s t
    -- A route of the identities, an expiry, or the backfill behind a link.
    identified : (w : World N) → History.Step s.world w → t ≡ record s { world = w } → Step s t
    backfilled : (v : Vendor) (u c : Text) → t ≡ with_db (backfill v u c s.world.db) s → Step s t

  pub data Reach (s : System N) : System N → Type 0 where
    start : Reach s s
    next : {t u : System N} → Reach s t → Step t u → Reach s u
