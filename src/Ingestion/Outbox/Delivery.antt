-- ===== src/Ingestion/Outbox/Delivery.antt =====
-- The delivery of events by src/ingestion/outbox-publisher.service.ts.
use mathlib.Core.Path.{subst}
use pureplay_analytics_inges.Prelude.{
  ℕ, suc, ◌≤◌, ◌≡◌, ◌≢◌, refl, sym, ap, ◌∙◌, ◌⊎◌, inl, inr, Bool, true, false, not, List, [], ◌∷◌,
  text_eq, ◌==◌, ==_iff, keep, any, take, length, count, arith, Bool-cases, All, All-map, All-In,
  In, here, there, keep-All,
}
use pureplay_analytics_inges.Domain.Shot.{NormalisedShot}
use pureplay_analytics_inges.Database.{Database, OutboxRow, IsNumbered}
use pureplay_analytics_inges.Database.Order.{order_by, order_by-All, All-order_by, count-order_by}
use pureplay_analytics_inges.Ingestion.Repository.{shot_persisted, without_payload}
use pureplay_analytics_inges.Ingestion.Outbox.{
  batch_size, publish_rows, pending_batch, is_done, publish_pending,
}

module _ {N : Type 0} where
  take-All :
      (P : OutboxRow N → Type 0) (n : ℕ) (xs : List (OutboxRow N)) → All P xs → All P (take n xs)
  take-All P ℕ.zero xs h = tt
  take-All P (suc n) [] h = tt
  take-All P (suc n) (x ∷ xs) h = (h.0, take-All P n xs h.1)

  -- Every row of a batch is a row of the table that is not locked.
  pending_batch-All :
      (unlocked : OutboxRow N → Bool) (rows : List (OutboxRow N))
      → All (λ row. (unlocked row ≡ true) × In row rows) (pending_batch unlocked rows)
  unfolding pending_batch
  pending_batch-All unlocked rows =
      take-All _ batch_size _ (order_by-All (λ row. row.created_at) _ _ (keep-All unlocked rows))

  IsNumbered-same :
      (next : ℕ) (rows : List (OutboxRow N)) (a b : OutboxRow N)
      → IsNumbered next rows
      → In a rows
      → In b rows
      → a.id ≡ b.id
      → a ≡ b
  IsNumbered-same next [] a b u i j e = elim i [ ]
  IsNumbered-same next (x ∷ rows) a b u here here e = refl
  IsNumbered-same next (x ∷ rows) a b u here (there j) e =
      absurd (All-In (λ row. x.id ≢ row.id) rows b u.1 j e)
  IsNumbered-same next (x ∷ rows) a b u (there i) here e =
      absurd (All-In (λ row. x.id ≢ row.id) rows a u.1 i (sym e))
  IsNumbered-same next (x ∷ rows) a b u (there i) (there j) e =
      IsNumbered-same next rows a b u.2 i j e

  take-length : (n : ℕ) (xs : List (OutboxRow N)) → length xs ≤ n → take n xs ≡ xs
  take-length ℕ.zero [] h = refl
  take-length ℕ.zero (x ∷ xs) h = absurd (omega arith)
  take-length (suc n) [] h = refl
  take-length (suc n) (x ∷ xs) h = ap (λ r. x ∷ r) (take-length n xs (omega arith))

  keep-all :
      (p : OutboxRow N → Bool) (xs : List (OutboxRow N))
      → ((x : OutboxRow N) → p x ≡ true)
      → keep p xs ≡ xs
  keep-all p [] h = refl
  keep-all p (x ∷ xs) h = rw (h x) (ap (λ r. x ∷ r) (keep-all p xs h))

  keep-none :
      (p : OutboxRow N → Bool) (xs : List (OutboxRow N))
      → All (λ x. p x ≡ true) xs
      → keep (λ x. not (p x)) xs ≡ []
  keep-none p [] h = refl
  keep-none p (x ∷ xs) h = rw h.0 (keep-none p xs h.1)

  count-length : (xs : List (OutboxRow N)) → count (λ _. true) xs ≡ length xs
  count-length [] = refl
  count-length (x ∷ xs) = ap suc (count-length xs)

  batch-whole :
      (unlocked : OutboxRow N → Bool) (rows : List (OutboxRow N))
      → ((row : OutboxRow N) → unlocked row ≡ true)
      → length rows ≤ 100
      → pending_batch unlocked rows ≡ order_by (λ row. row.created_at) rows
  unfolding pending_batch
  batch-whole unlocked rows free few =
      let sorted = order_by (λ row. row.created_at) rows in
      let same : length sorted ≡ length rows =
        sym (count-length sorted)
        ∙ count-order_by (λ row. row.created_at) (λ _. true) rows
        ∙ count-length rows in
      rw (keep-all unlocked rows free) (take-length batch_size sorted (omega arith))

module _ {N : Type 0} (listeners : NormalisedShot N → Bool) where
  -- A row with a given id that a pass is done with: it is of no known type, or was published.
  record Done (n : ℕ) (rows : List (OutboxRow N)) (emitted : List (NormalisedShot N)) : Type 0 where
    row : OutboxRow N
    listed : In row rows
    same : row.id ≡ n
    published :
        text_eq row.event_type shot_persisted ≡ true → In (without_payload row.payload) emitted

  Done-cons :
      (n : ℕ) (x : OutboxRow N) (rows : List (OutboxRow N))
      (emitted emitted' : List (NormalisedShot N))
      → ((e : NormalisedShot N) → In e emitted → In e emitted')
      → Done n rows emitted
      → Done n (x ∷ rows) emitted'
  Done-cons n x rows emitted emitted' more d = record {
    row = d.row;
    listed = there d.listed;
    same = d.same;
    published = λ h. more _ (d.published h);
  }

  publish_rows-Done :
      (rows : List (OutboxRow N)) (n : ℕ)
      → any (λ id. id == n) (publish_rows listeners rows).successful_ids ≡ true
      → Done n rows (publish_rows listeners rows).emitted
  unfolding publish_rows
  publish_rows-Done [] n h = cc
  publish_rows-Done (x ∷ rows) n h = elim (Bool-cases (text_eq x.event_type shot_persisted)) [
    | inl t ↦ elim (Bool-cases (listeners (without_payload x.payload))) [
      | inl l ↦ elim (Bool-cases (x.id == n)) [
        | inl e ↦
            rw (t, l)
              (record { row = x; listed = here; same = (==_iff x.id n).0 e; published = λ _. here })
        | inr e ↦
            rw (t, l)
              (Done-cons n x rows _ _ (λ _ i. there i) (publish_rows-Done rows n (ground arith)))
      ]
      | inr l ↦
          rw (t, l) (Done-cons n x rows _ _ (λ _ i. i) (publish_rows-Done rows n (ground arith)))
    ]
    | inr t ↦ elim (Bool-cases (x.id == n)) [
      | inl e ↦ rw t (record {
        row = x;
        listed = here;
        same = (==_iff x.id n).0 e;
        published = λ h'. absurd (clash x t h');
      })
      | inr e ↦ rw t (Done-cons n x rows _ _ (λ _ i. i) (publish_rows-Done rows n (ground arith)))
    ]
  ]
    where
      clash :
          (y : OutboxRow N)
          → text_eq y.event_type shot_persisted ≡ false
          → text_eq y.event_type shot_persisted ≡ true
          → ⊥
      clash y f g = cc (sym f ∙ g)

  kept :
      (ids : List ℕ) (rows : List (OutboxRow N)) (row : OutboxRow N)
      → is_done ids row ≡ false
      → In row rows
      → In row (keep (λ r. not (is_done ids r)) rows)
  kept ids [] row h i = elim i [ ]
  kept ids (x ∷ rows) row h here = rw h here
  kept ids (x ∷ rows) row h (there i) = elim (Bool-cases (is_done ids x)) [
    | inl e ↦ rw e (kept ids rows row h i)
    | inr e ↦ rw e (there (kept ids rows row h i))
  ]

  -- With distinct outbox ids, a row of the outbox is, after a publishing cycle, still there, or
  -- its event was emitted, or its type is not `shot.persisted`, whatever rows are locked and
  -- whichever listeners throw.
  pub publish_pending_delivers :
      (unlocked : OutboxRow N → Bool) (db : Database N) (row : OutboxRow N)
      → IsNumbered db.next_outbox_id db.outbox_events
      → In row db.outbox_events
      → In row (publish_pending listeners unlocked db).1.outbox_events
        ⊎ In (without_payload row.payload) (publish_pending listeners unlocked db).0
        ⊎ (text_eq row.event_type shot_persisted ≡ false)
  unfolding publish_pending
  publish_pending_delivers unlocked db row numbered listed =
      let pass = publish_rows listeners (pending_batch unlocked db.outbox_events) in
      elim (Bool-cases (is_done pass.successful_ids row)) [
        | inr e ↦ inl (kept pass.successful_ids db.outbox_events row e listed)
        | inl e ↦ elim (Bool-cases (text_eq row.event_type shot_persisted)) [
          | inr unknown ↦ inr (inr unknown)
          | inl t ↦
              let d = publish_rows-Done (pending_batch unlocked db.outbox_events) row.id e in
              let (_, stored) =
                All-In _ _ d.row (pending_batch-All unlocked db.outbox_events) d.listed in
              let same_row : d.row ≡ row =
                IsNumbered-same db.next_outbox_id db.outbox_events d.row row numbered stored listed
                  d.same in
              inr (
                inl (
                  subst (λ r. In (without_payload r.payload) pass.emitted) same_row
                    (d.published (rw same_row t))))
        ]
      ]

  publish_rows-All :
      (rows all : List (OutboxRow N))
      → All (λ row. In row all) rows
      → All
          (λ event.
            (row : OutboxRow N) × In row all
            × (event ≡ without_payload row.payload)
            × (text_eq row.event_type shot_persisted ≡ true)
            × (listeners event ≡ true))
          (publish_rows listeners rows).emitted
  unfolding publish_rows
  publish_rows-All [] all h = tt
  publish_rows-All (x ∷ rows) all h = elim (Bool-cases (text_eq x.event_type shot_persisted)) [
    | inl t ↦ elim (Bool-cases (listeners (without_payload x.payload))) [
      | inl l ↦ rw (t, l) ((x, h.0, refl, t, l), publish_rows-All rows all h.1)
      | inr l ↦ rw (t, l) (publish_rows-All rows all h.1)
    ]
    | inr t ↦ rw t (publish_rows-All rows all h.1)
  ]

  -- Every event that a publishing cycle emits is the payload, without its raw payload, of a
  -- `shot.persisted` row that was in the outbox, and its listeners returned.
  pub publish_pending_sound :
      (unlocked : OutboxRow N → Bool) (db : Database N)
      → All
          (λ event.
            (row : OutboxRow N) × In row db.outbox_events
            × (event ≡ without_payload row.payload)
            × (text_eq row.event_type shot_persisted ≡ true)
            × (listeners event ≡ true))
          (publish_pending listeners unlocked db).0
  unfolding publish_pending
  publish_pending_sound unlocked db =
      publish_rows-All (pending_batch unlocked db.outbox_events) db.outbox_events
        (All-map _ _ (λ row h. h.1) _ (pending_batch-All unlocked db.outbox_events))

  successful_ids-cons :
      ((shot : NormalisedShot N) → listeners shot ≡ true)
      → (x : OutboxRow N) (rows : List (OutboxRow N))
      → (publish_rows listeners (x ∷ rows)).successful_ids
        ≡ x.id ∷ (publish_rows listeners rows).successful_ids
  unfolding publish_rows
  successful_ids-cons works x rows = elim (Bool-cases (text_eq x.event_type shot_persisted)) [
    | inl t ↦ rw (t, works (without_payload x.payload))
    | inr t ↦ rw t
  ]

  All-done :
      ((shot : NormalisedShot N) → listeners shot ≡ true)
      → (rows : List (OutboxRow N))
      → All (λ row. is_done (publish_rows listeners rows).successful_ids row ≡ true) rows
  All-done works [] = tt
  All-done works (x ∷ rows) = (
    rw (successful_ids-cons works x rows) (ground arith),
    All-map _ _ (λ row h. rw (successful_ids-cons works x rows) (ground arith)) rows
        (All-done works rows),
  )

  -- If no listener throws, no row is locked and there are at most 100 rows, a publishing cycle
  -- empties the outbox.
  pub publish_pending_drains :
      (unlocked : OutboxRow N → Bool) (db : Database N)
      → ((shot : NormalisedShot N) → listeners shot ≡ true)
      → ((row : OutboxRow N) → unlocked row ≡ true)
      → length db.outbox_events ≤ 100
      → (publish_pending listeners unlocked db).1.outbox_events ≡ []
  unfolding publish_pending pending_batch
  publish_pending_drains unlocked db works free few =
      let rows = db.outbox_events in
      let same : pending_batch unlocked rows ≡ order_by (λ row. row.created_at) rows =
        batch-whole unlocked rows free few in
      keep-none _ rows (
        rw same (
          All-order_by (λ row. row.created_at) _ rows
            (All-done works (order_by (λ row. row.created_at) rows))))
