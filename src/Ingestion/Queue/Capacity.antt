-- ===== src/Ingestion/Queue/Capacity.antt =====
-- The capacity of src/ingestion/shot-ingestion.queue.ts for a batch.
use pureplay_analytics_inges.Prelude.{
  ℕ, ◌+◌, ◌≤◌, ◌<◌, ◌≡◌, refl, ◌⊎◌, true, Option, List, [], ◌∷◌, Text, ℤ, ltb, length, arith, inl,
  inr, false, some, Bool-cases, All, All-map,
}
use pureplay_analytics_inges.Domain.Shot.{NormalisedShot}
use pureplay_analytics_inges.Ingestion.Queue.{
  Queue, IsQueue, has_colon, is_no_integer, service_unavailable, ok, err, max_depth, job_of,
  enqueue, check_batch_capacity, enqueue_all, enqueue_batch,
}

-- A shot whose idempotency key `add` takes as a job id.
abbrev pub HasJobId : {N : Type 0} → NormalisedShot N → Type 0
HasJobId shot =
    (has_colon shot.idempotency_key ≡ false) × (is_no_integer shot.idempotency_key ≡ true)

module _ {N Q : Type 0} (queue : Queue N Q) (config : Option ℕ) (laws : IsQueue queue)
    (correlation_id : Text) (received_at_utc : ℤ) where
  enqueue-room :
      (shot : NormalisedShot N) (q q' : Q)
      → queue.get_waiting_count q < max_depth config
      → queue.add shot.idempotency_key (job_of shot correlation_id received_at_utc) q ≡ some q'
      → enqueue queue config shot correlation_id received_at_utc q ≡ (ok shot.idempotency_key, q')
  unfolding enqueue
  enqueue-room shot q q' room e = ground (arith, e)

  enqueue_all-cons :
      (shot : NormalisedShot N) (shots : List (NormalisedShot N)) (q q' : Q)
      → queue.get_waiting_count q < max_depth config
      → queue.add shot.idempotency_key (job_of shot correlation_id received_at_utc) q ≡ some q'
      → enqueue_all queue config (shot ∷ shots) correlation_id received_at_utc q
        ≡ enqueue_all queue config shots correlation_id received_at_utc q'
  unfolding enqueue_all
  enqueue_all-cons shot shots q q' room e = rw (enqueue-room shot q q' room e)

  enqueue_all-nil :
      (q : Q) → enqueue_all queue config [] correlation_id received_at_utc q ≡ (ok tt, q)
  unfolding enqueue_all
  enqueue_all-nil q = refl

  -- With room for all of them every shot is taken, and the limit holds.
  enqueue_all-room :
      (shots : List (NormalisedShot N)) (q : Q)
      → All HasJobId shots
      → queue.get_waiting_count q + length shots ≤ max_depth config
      → ((enqueue_all queue config shots correlation_id received_at_utc q).0 ≡ ok tt)
        × (queue.get_waiting_count
              (enqueue_all queue config shots correlation_id received_at_utc q).1
            ≤ queue.get_waiting_count q + length shots)
        × ((id : Text)
            → queue.has_job id q ≡ true
            → queue.has_job id (enqueue_all queue config shots correlation_id received_at_utc q).1
              ≡ true)
        × All
            (λ shot.
              queue.has_job shot.idempotency_key
                (enqueue_all queue config shots correlation_id received_at_utc q).1
              ≡ true)
            shots
  enqueue_all-room [] q ids room = rw (enqueue_all-nil q) (refl, omega arith, (λ id h. h), tt)
  enqueue_all-room (shot ∷ shots) q ((no_colon, no_integer), ids) room =
      let key = shot.idempotency_key in
      let job = job_of shot correlation_id received_at_utc in
      let (q', e) = laws.add_takes key job q no_colon no_integer in
      let one = laws.add_one key job q q' e in
      let (done, bound, kept, taken) = enqueue_all-room shots q' ids (omega (arith, one)) in
      rw (enqueue_all-cons shot shots q q' (omega arith) e) (
        done,
        omega (arith, one),
        (λ id h. kept id (laws.add_keeps key id job q q' e h)),
        (
          kept key (laws.add_known key job q q' e),
          All-map _ _ (λ other h. rw (enqueue_all-cons shot shots q q' (omega arith) e) h) shots
              taken,
        ),
      )

  -- The checked batch, with job ids that `add` takes, is all in the queue, or refused as a whole.
  pub enqueue_batch_lem :
      (shots : List (NormalisedShot N)) (q : Q)
      → All HasJobId shots
      → ((queue.get_waiting_count q + length shots ≤ max_depth config)
          × ((enqueue_batch queue config shots correlation_id received_at_utc q).0 ≡ ok tt)
          × (queue.get_waiting_count
                (enqueue_batch queue config shots correlation_id received_at_utc q).1
              ≤ max_depth config)
          × All
              (λ shot.
                queue.has_job shot.idempotency_key
                  (enqueue_batch queue config shots correlation_id received_at_utc q).1
                ≡ true)
              shots)
        ⊎ ((max_depth config < queue.get_waiting_count q + length shots)
            × (enqueue_batch queue config shots correlation_id received_at_utc q
                ≡ (err (service_unavailable 30), q)))
  unfolding enqueue_batch check_batch_capacity
  enqueue_batch_lem shots q ids =
      elim (Bool-cases (ltb (max_depth config) (queue.get_waiting_count q + length shots))) [
        | inl full ↦ inr (ground arith, rw full)
        | inr fits ↦
            let room : queue.get_waiting_count q + length shots ≤ max_depth config = ground arith in
            let (done, bound, _, taken) = enqueue_all-room shots q ids room in
            inl (
              room,
              rw fits done,
              rw fits (omega arith),
              All-map _ _ (λ shot h. rw fits h) shots taken,
            )
      ]
