-- ===== src/Ingestion/Pipeline/Working.antt =====
-- The stages of src/ingestion/shot-ingestion.processor.ts as steps of the ledger.
use mathlib.Core.Path.{subst}
use mathlib.Core.List.{map-append}
use pureplay_analytics_inges.Prelude.{
  ◌≡◌, ◌≢◌, refl, sym, ap, ◌∙◌, inl, inr, Bool, true, false, some, List, [], ◌∷◌, map, Text,
  text_eq, text_eq_iff, ℤ, ◌||◌, any, All, arith, Option-cases,
}
use pureplay_analytics_inges.Platform.{Number, Platform, Serialiser}
use pureplay_analytics_inges.Domain.Shot.{NormalisedShot, vendor_text}
use pureplay_analytics_inges.Database.{Database, has_id}
use pureplay_analytics_inges.World.{World, Outcome}
use pureplay_analytics_inges.Ingestion.Queue.{ShotJob}
use pureplay_analytics_inges.Ingestion.Repository.{
  UpsertResult, upsert_if_new, check_and_flag_near_duplicates, update_outbox_event_duplicate_of,
  record_ingestion_failure,
}
use pureplay_analytics_inges.Ingestion.Repository.Upsert.{
  Upserted, new, known, upsert_if_new-Upserted,
}
use pureplay_analytics_inges.Ingestion.Processor.{
  Progress, started, resolved, inserted, flagged, finished, advance,
}
use pureplay_analytics_inges.Ingestion.Processor.Retry.{resolve_keeps_db}
use pureplay_analytics_inges.Ingestion.Pipeline.Ledger.{
  LedgerStep, unchanged, persisted, same_place,
}
use pureplay_analytics_inges.Ingestion.Pipeline.Tables.{
  key_of, notice_of, tables, Keeps, Keeps-tables, update_outbox-Keeps, Keeps-Same, Same,
  check-Keeps,
}

module _ {A B : Type 0} where
  any-map : (f : A → B) (q : B → Bool) (xs : List A) → any q (map f xs) ≡ any (λ x. q (f x)) xs
  any-map f q [] = refl
  any-map f q (x ∷ xs) = ap (λ b. q (f x) || b) (any-map f q xs)

module _ {N : Type 0} where
  other_ids :
      (id : Text) (rows : List (NormalisedShot N))
      → any (has_id id) rows ≡ false
      → All (λ l. l.id ≢ id) (map key_of rows)
  other_ids id [] h = tt
  other_ids id (x ∷ rows) h =
      ((λ e. differs ((text_eq_iff _ _).1 e)), other_ids id rows (ground arith))
    where
      differs : ¬ (text_eq x.canonical_shot_id id ≡ true)
      differs e = ground arith

  Upserted-LedgerStep :
      (shot : NormalisedShot N) (now : ℤ) (db db' : Database N) (r : UpsertResult)
      (announced : List Text)
      → Upserted shot now db r db'
      → LedgerStep (tables db announced) (tables db' announced)
  Upserted-LedgerStep shot now db db' r announced (known row _ _ same) =
      unchanged (ap (λ d. tables d announced) same)
  Upserted-LedgerStep shot now db db' r announced (new _ no_key no_id same) =
      persisted (key_of shot) (any-map key_of (same_place (key_of shot)) db.shots ∙ no_key)
        (other_ids shot.canonical_shot_id db.shots no_id)
        (ap (λ d. tables d announced) same
          ∙ rw (map-append key_of db.shots (shot ∷ []), map-append notice_of db.outbox_events) refl)

module _ {N : Type 0} ⦃num : Number N⦄ ⦃p : Platform⦄ ⦃ser : Serialiser N⦄ where
  started-Same :
      (now : ℤ) (job : ShotJob N) (stage : Progress N) (w w' : World N)
      → advance now job started w ≡ some (stage, w')
      → Same w.db w'.db
  unfolding advance record_ingestion_failure
  started-Same now job stage w w' h = ground (
    arith,
    resolve_keeps_db (vendor_text job.normalised_shot.vendor) job.normalised_shot.vendor_user_id w,
  )

  pub upserted-resolved :
      (now : ℤ) (job : ShotJob N) (shot : NormalisedShot N) (stage : Progress N) (w w' : World N)
      → advance now job (resolved shot) w ≡ some (stage, w')
      → (r : UpsertResult) × (upsert_if_new shot now w.db ≡ some (r, w'.db))
  unfolding advance
  upserted-resolved now job shot stage w w' h = elim (Option-cases (upsert_if_new shot now w.db)) [
    | inl e ↦ absurd (ground (arith, e))
    | inr ((r, db), e) ↦ (r, e ∙ ap (λ d. some (r, d)) (ground (arith, e)))
  ]

  checked-inserted :
      (now : ℤ) (job : ShotJob N) (shot : NormalisedShot N) (id : Text) (stage : Progress N)
      (w w' : World N)
      → advance now job (inserted shot id) w ≡ some (stage, w')
      → w'.db ≡ (check_and_flag_near_duplicates shot w.db).1
  unfolding advance
  checked-inserted now job shot id stage w w' h = ground arith

  same_flagged :
      (now : ℤ) (job : ShotJob N) (id origin : Text) (stage : Progress N) (w w' : World N)
      → advance now job (flagged id origin) w ≡ some (stage, w')
      → w'.db ≡ update_outbox_event_duplicate_of id origin w.db
  unfolding advance
  same_flagged now job id origin stage w w' h = ground arith

  same_finished :
      (now : ℤ) (job : ShotJob N) (outcome : Outcome) (stage : Progress N) (w w' : World N)
      → advance now job (finished outcome) w ≡ some (stage, w')
      → w'.db ≡ w.db
  unfolding advance
  same_finished now job outcome stage w w' h = ground arith

  pub advance-LedgerStep :
      (now : ℤ) (job : ShotJob N) (stage stage' : Progress N) (w w' : World N)
      (announced : List Text)
      → advance now job stage w ≡ some (stage', w')
      → LedgerStep (tables w.db announced) (tables w'.db announced)
  advance-LedgerStep now job started stage' w w' announced h = unchanged (
      Keeps-tables w.db w'.db announced
        (Keeps-Same w.db w'.db (started-Same now job stage' w w' h)))
  advance-LedgerStep now job (resolved shot) stage' w w' announced h =
      let (r, e) = upserted-resolved now job shot stage' w w' h in
      Upserted-LedgerStep shot now w.db w'.db r announced
        (upsert_if_new-Upserted shot now w.db w'.db r e)
  advance-LedgerStep now job (inserted shot id) stage' w w' announced h = unchanged (
      Keeps-tables w.db w'.db announced (
        subst (Keeps w.db) (sym (checked-inserted now job shot id stage' w w' h))
          (check-Keeps shot w.db)))
  advance-LedgerStep now job (flagged id origin) stage' w w' announced h = unchanged (
      Keeps-tables w.db w'.db announced (
        subst (Keeps w.db) (sym (same_flagged now job id origin stage' w w' h))
          (update_outbox-Keeps id origin w.db)))
  advance-LedgerStep now job (finished outcome) stage' w w' announced h =
      unchanged (ap (λ d. tables d announced) (same_finished now job outcome stage' w w' h))
