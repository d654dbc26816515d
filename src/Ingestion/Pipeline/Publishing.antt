-- ===== src/Ingestion/Pipeline/Publishing.antt =====
-- The cycles of src/ingestion/outbox-publisher.service.ts as steps of the ledger.
use pureplay_analytics_inges.Prelude.{
  ℕ, ◌≡◌, ◌≢◌, refl, sym, ap, ◌∙◌, ◌⊎◌, inl, inr, Bool, true, false, not, List, [], ◌∷◌, ◌++◌, map,
  Text, text_eq, text_eq_iff, keep, keep-All, All, All-In, In, here, there, arith, Bool-cases,
  map-All,
}
use pureplay_analytics_inges.Domain.Shot.{NormalisedShot}
use pureplay_analytics_inges.Database.{Database, OutboxRow, IsNumbered}
use pureplay_analytics_inges.Ingestion.Outbox.{
  publish_pending, publish_rows, pending_batch, is_done,
}
use pureplay_analytics_inges.Ingestion.Outbox.Delivery.{
  publish_pending_delivers, publish_pending_sound,
}
use pureplay_analytics_inges.Ingestion.Repository.{shot_persisted, without_payload}
use pureplay_analytics_inges.Ingestion.Pipeline.Ledger.{
  Notice, LedgerStep, announced_shots, IsWaiting, is_among, IsConsistent, AreNumbered,
}
use pureplay_analytics_inges.Ingestion.Pipeline.Tables.{notice_of, ids_of, tables}

module _ {A B : Type 0} where
  In-map : (f : A → B) (xs : List A) (a : A) → In a xs → In (f a) (map f xs)
  In-map f [] a i = elim i [ ]
  In-map f (x ∷ xs) a here = here
  In-map f (x ∷ xs) a (there i) = there (In-map f xs a i)

  keep-map :
      (f : A → B) (q : B → Bool) (xs : List A) → map f (keep (λ x. q (f x)) xs) ≡ keep q (map f xs)
  keep-map f q [] = refl
  keep-map f q (x ∷ xs) = elim (Bool-cases (q (f x))) [
    | inl e ↦ rw (e, keep-map f q xs) refl
    | inr e ↦ rw (e, keep-map f q xs) refl
  ]

not_both : (b : Bool) → b ≡ true → not b ≡ true → ⊥
not_both b t f = ground arith

true-ne-false : true ≡ false → ⊥
true-ne-false q = cc

module _ {N : Type 0} (listeners : NormalisedShot N → Bool) (unlocked : OutboxRow N → Bool)
    (db : Database N) where
  abbrev numbers : List ℕ
  numbers = (publish_rows listeners (pending_batch unlocked db.outbox_events)).successful_ids

  abbrev pub events : List (NormalisedShot N)
  events = (publish_pending listeners unlocked db).0

  events-IsWaiting :
      (announced : List Text) → All (λ id. IsWaiting (tables db announced) id) (ids_of events)
  events-IsWaiting announced =
      map-All _ (λ id. IsWaiting (tables db announced) id) (λ shot. shot.canonical_shot_id)
        (λ event (row, i, e, _, _). (
          notice_of row,
          In-map notice_of db.outbox_events row i,
          ap (λ x. x.canonical_shot_id) (sym e),
        ))
        events (publish_pending_sound listeners unlocked db)

  done_rows :
      (row : OutboxRow N)
      → IsNumbered db.next_outbox_id db.outbox_events
      → In row db.outbox_events
      → is_among numbers (notice_of row) ≡ true
      → row.event_type ≡ shot_persisted
      → In row.payload.canonical_shot_id (ids_of events)
  unfolding publish_pending
  done_rows row numbered i done type =
      told (publish_pending_delivers listeners unlocked db row numbered i)
    where
      told :
          In row (publish_pending listeners unlocked db).1.outbox_events
            ⊎ In (without_payload row.payload) events
            ⊎ (text_eq row.event_type shot_persisted ≡ false)
          → In row.payload.canonical_shot_id (ids_of events)
      told (inl left) =
          let (gone, _) =
            All-In _ _ row (keep-All (λ r. not (is_done numbers r)) db.outbox_events) left in
          absurd (not_both (is_done numbers row) done gone)
      told (inr (inl told_of)) =
          In-map (λ shot. shot.canonical_shot_id) events (without_payload row.payload) told_of
      told (inr (inr other)) =
          absurd (true-ne-false (sym ((text_eq_iff row.event_type shot_persisted).1 type) ∙ other))

  told-All :
      (rows : List (OutboxRow N)) (P : Notice → Type 0)
      → ((row : OutboxRow N) → In row rows → P (notice_of row))
      → All P (map notice_of rows)
  told-All [] P f = tt
  told-All (x ∷ rows) P f = (f x here, told-All rows P (λ row i. f row (there i)))

  IsNumbered-of :
      (next : ℕ) (rows : List (OutboxRow N))
      → AreNumbered next (map notice_of rows)
      → IsNumbered next rows
  IsNumbered-of next [] h = tt
  IsNumbered-of next (x ∷ rows) h = (h.0, numbers_of rows h.1, IsNumbered-of next rows h.2)
    where
      numbers_of :
          (ys : List (OutboxRow N))
          → All (λ m. x.id ≢ m.number) (map notice_of ys)
          → All (λ row. x.id ≢ row.id) ys
      numbers_of [] k = tt
      numbers_of (y ∷ ys) k = (k.0, numbers_of ys k.1)

  pub published-LedgerStep :
      (announced : List Text)
      → IsConsistent (tables db announced)
      → LedgerStep
          (tables db announced)
          (tables (publish_pending listeners unlocked db).1 (announced ++ ids_of events))
  unfolding publish_pending
  published-LedgerStep announced h =
      announced_shots numbers (ids_of events) (events-IsWaiting announced)
        (told-All db.outbox_events _ (λ row i done type.
          done_rows row (IsNumbered-of db.next_outbox_id db.outbox_events h.numbered) i done type))
        (ap
          (λ waiting. record (tables db announced) {
            waiting = waiting;
            announced = announced ++ ids_of events;
          })
          (keep-map notice_of (λ n. not (is_among numbers n)) db.outbox_events))

  pub rolled_back-LedgerStep :
      (announced : List Text)
      → LedgerStep (tables db announced) (tables db (announced ++ ids_of events))
  rolled_back-LedgerStep announced =
      announced_shots [] (ids_of events) (events-IsWaiting announced)
        (told-All db.outbox_events _ (λ row i none_done. cc))
        (ap
          (λ waiting. record (tables db announced) {
            waiting = waiting;
            announced = announced ++ ids_of events;
          })
          (sym (keep-all_notices (map notice_of db.outbox_events))))
    where
      keep-all_notices : (ns : List Notice) → keep (λ n. not (is_among [] n)) ns ≡ ns
      keep-all_notices [] = refl
      keep-all_notices (n ∷ ns) = ap (λ r. n ∷ r) (keep-all_notices ns)
