-- ===== src/Ingestion/Queue.antt =====
-- src/ingestion/shot-ingestion.queue.ts, over a BullMQ queue that is a parameter.
pub mod Capacity
use pureplay_analytics_inges.Prelude.{
  ℕ, ◌+◌, ◌≤◌, ◌≡◌, Bool, true, false, Option, none, some, List, [], ◌∷◌, Text, ℤ, leb, ltb, length,
  any, ◌==◌, or_else, if◌then◌else◌,
}
use pureplay_analytics_inges.Domain.Shot.{NormalisedShot, Vendor}

pub record ShotJob (N : Type 0) : Type 0 where
  pub vendor : Vendor
  pub normalised_shot : NormalisedShot N
  pub correlation_id : Text
  pub received_at_utc : ℤ

-- The operations of a BullMQ queue with states `Q`. `add` is `none` where it throws.
pub record Queue (N Q : Type 0) : Type 0 where
  pub get_waiting_count : Q → ℕ
  pub add : Text → ShotJob N → Q → Option Q
  pub has_job : Text → Q → Bool

abbrev pub has_colon : Text → Bool
has_colon = any (λ c. c == b':')

-- A text that is no integer: it has a code unit above '9'.
abbrev pub is_no_integer : Text → Bool
is_no_integer = any (λ c. ltb b'9' c)

-- BullMQ's documented behaviour of `add` with a `jobId`. It takes an id that has no ':' and is no
-- integer. If it returns, then it has added at most one waiting job, the job is known from then on,
-- and an id that was known already has changed nothing.
pub record IsQueue {N Q : Type 0} (queue : Queue N Q) : Type 0 where
  pub add_takes :
      (id : Text) (job : ShotJob N) (q : Q)
      → has_colon id ≡ false
      → is_no_integer id ≡ true
      → (q' : Q) × (queue.add id job q ≡ some q')
  pub add_one :
      (id : Text) (job : ShotJob N) (q q' : Q)
      → queue.add id job q ≡ some q'
      → queue.get_waiting_count q' ≤ queue.get_waiting_count q + 1
  pub add_known :
      (id : Text) (job : ShotJob N) (q q' : Q)
      → queue.add id job q ≡ some q'
      → queue.has_job id q' ≡ true
  pub add_keeps :
      (id other : Text) (job : ShotJob N) (q q' : Q)
      → queue.add id job q ≡ some q'
      → queue.has_job other q ≡ true
      → queue.has_job other q' ≡ true
  pub add_again :
      (id : Text) (job : ShotJob N) (q q' : Q)
      → queue.add id job q ≡ some q'
      → queue.has_job id q ≡ true
      → q' ≡ q

-- What the ingest path throws: 503 SERVICE_UNAVAILABLE, 422 CLOCK_SKEW_EXCESSIVE, and the error of
-- `add`, which is no HttpException.
pub data Refusal : Type 0 where
  service_unavailable : ℕ → Refusal
  clock_skew_excessive : Refusal
  job_id_refused : Refusal

pub data Result (A : Type 0) : Type 0 where
  ok : A → Result A
  err : Refusal → Result A

-- `MAX_QUEUE_DEPTH ?? 10000`
abbrev pub max_depth : Option ℕ → ℕ
max_depth config = or_else config 10000

abbrev pub first_error : {A : Type 0} → Result A → Result (Unit {0}) → Result (Unit {0})
first_error (err e) rest = err e
first_error (ok a) rest = rest

abbrev pub job_of : {N : Type 0} → NormalisedShot N → Text → ℤ → ShotJob N
job_of shot correlation_id received_at_utc = record {
  vendor = shot.vendor;
  normalised_shot = shot;
  correlation_id = correlation_id;
  received_at_utc = received_at_utc;
}

module _ {N Q : Type 0} (queue : Queue N Q) (config : Option ℕ) where
  abbrev pub added : Text → Q → Option Q → Result Text × Q
  added id q none = (err job_id_refused, q)
  added id q (some q') = (ok id, q')

  -- The answer, and the queue after the call.
  unfoldable pub enqueue : NormalisedShot N → Text → ℤ → Q → Result Text × Q
  enqueue shot correlation_id received_at_utc q =
      if leb (max_depth config) (queue.get_waiting_count q)
      then (err (service_unavailable 30), q)
      else added shot.idempotency_key q
          (queue.add shot.idempotency_key (job_of shot correlation_id received_at_utc) q)

  unfoldable pub check_batch_capacity : ℕ → Q → Result (Unit {0})
  check_batch_capacity batch_size q =
      if ltb (max_depth config) (queue.get_waiting_count q + batch_size)
      then err (service_unavailable 30)
      else ok tt

  -- `Promise.all(shots.map(enqueue))`, one call after the other: every call is made, and one error is
  -- the whole's.
  unfoldable pub enqueue_all : List (NormalisedShot N) → Text → ℤ → Q → Result (Unit {0}) × Q
  enqueue_all [] correlation_id received_at_utc q = (ok tt, q)
  enqueue_all (shot ∷ shots) correlation_id received_at_utc q =
      let (r, q') = enqueue shot correlation_id received_at_utc q in
      let (rest, q'') = enqueue_all shots correlation_id received_at_utc q' in
      (first_error r rest, q'')

  abbrev enqueue_checked :
      Result (Unit {0}) → List (NormalisedShot N) → Text → ℤ → Q → Result (Unit {0}) × Q
  enqueue_checked (err e) shots correlation_id received_at_utc q = (err e, q)
  enqueue_checked (ok a) shots correlation_id received_at_utc q =
      enqueue_all shots correlation_id received_at_utc q

  -- The capacity check of a batch and its enqueueing, as the batch controller makes them.
  unfoldable pub enqueue_batch : List (NormalisedShot N) → Text → ℤ → Q → Result (Unit {0}) × Q
  enqueue_batch shots correlation_id received_at_utc q =
      enqueue_checked (check_batch_capacity (length shots) q) shots correlation_id received_at_utc q

unfoldable pub is_job_id_known : {N Q : Type 0} → Queue N Q → Text → Q → Bool
is_job_id_known queue id q = queue.has_job id q
