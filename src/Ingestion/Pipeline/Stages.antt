-- ===== src/Ingestion/Pipeline/Stages.antt =====
-- A worker's stages of src/ingestion/shot-ingestion.processor.ts, and the row that stands for a job.
use mathlib.Core.Path.{subst}
use pureplay_analytics_inges.Prelude.{
  ◌≡◌, refl, sym, ◌∙◌, ◌⊎◌, inl, inr, some, List, [], ◌∷◌, map, Text, text_eq_iff, ℤ, find, In,
  here, there, arith, Bool-cases, Option-cases, &&-eq-true,
}
use mathlib.Core.List.{map-append}
use pureplay_analytics_inges.Platform.{Number, Platform, Serialiser}
use pureplay_analytics_inges.Domain.Shot.{NormalisedShot, Vendor, vendor_eq_iff, vendor_text}
use pureplay_analytics_inges.Database.{Database, same_key}
use pureplay_analytics_inges.World.{
  World, Outcome, rejected_clock, duplicate_exact, duplicate_near, accepted,
}
use pureplay_analytics_inges.Identity.{resolve_canonical_user_id}
use pureplay_analytics_inges.Ingestion.Queue.{ShotJob}
use pureplay_analytics_inges.Ingestion.Repository.{
  UpsertResult, upsert_if_new, check_and_flag_near_duplicates,
}
use pureplay_analytics_inges.Ingestion.Repository.Upsert.{
  Upserted, new, known, upsert_if_new-Upserted,
}
use pureplay_analytics_inges.Ingestion.Processor.{
  Progress, started, resolved, inserted, flagged, finished, advance, with_canonical,
}
use pureplay_analytics_inges.Ingestion.Processor.Retry.{same_vendor, same_idempotency_key}
use pureplay_analytics_inges.Ingestion.Pipeline.Ledger.{
  Key, Ledger, LedgerStep, unchanged, persisted, announced_shots, In-left, In-right,
}
use pureplay_analytics_inges.Ingestion.Pipeline.Tables.{key_of, tables}
use pureplay_analytics_inges.Ingestion.Pipeline.Working.{advance-LedgerStep, upserted-resolved}

-- A row of a vendor and an idempotency key is stored.
abbrev pub IsKept : Ledger → Vendor → Text → Type 0
IsKept a v key = (k : Key) × In k a.stored × (k.vendor ≡ v) × (k.idempotency_key ≡ key)

IsKept-LedgerStep :
    (a b : Ledger) (v : Vendor) (key : Text) → LedgerStep a b → IsKept a v key → IsKept b v key
IsKept-LedgerStep a b v key (unchanged e) h = subst (λ c. IsKept c v key) (sym e) h
IsKept-LedgerStep a b v key (persisted k _ _ e) (l, i, h, g) =
    subst (λ c. IsKept c v key) (sym e) (l, In-left a.stored (k ∷ []) l i, h, g)
IsKept-LedgerStep a b v key (announced_shots _ _ _ _ e) h = subst (λ c. IsKept c v key) (sym e) h

module _ {N : Type 0} where
  -- What a stage says of its job: behind the insertion the job's key is stored.
  abbrev pub IsPlaced : Ledger → ShotJob N → Progress N → Type 0
  IsPlaced a job started = Unit
  IsPlaced a job (resolved shot) =
      (shot.vendor ≡ job.normalised_shot.vendor)
      × (shot.idempotency_key ≡ job.normalised_shot.idempotency_key)
  IsPlaced a job (finished rejected_clock) = Unit
  IsPlaced a job _ = IsKept a job.normalised_shot.vendor job.normalised_shot.idempotency_key

  pub IsPlaced-LedgerStep :
      (a b : Ledger) (job : ShotJob N) (stage : Progress N)
      → LedgerStep a b
      → IsPlaced a job stage
      → IsPlaced b job stage
  IsPlaced-LedgerStep a b job started s h = tt
  IsPlaced-LedgerStep a b job (resolved shot) s h = h
  IsPlaced-LedgerStep a b job (inserted shot id) s h = IsKept-LedgerStep a b _ _ s h
  IsPlaced-LedgerStep a b job (flagged id origin) s h = IsKept-LedgerStep a b _ _ s h
  IsPlaced-LedgerStep a b job (finished rejected_clock) s h = tt
  IsPlaced-LedgerStep a b job (finished Outcome.duplicate_exact) s h = IsKept-LedgerStep a b _ _ s h
  IsPlaced-LedgerStep a b job (finished Outcome.duplicate_near) s h = IsKept-LedgerStep a b _ _ s h
  IsPlaced-LedgerStep a b job (finished Outcome.accepted) s h = IsKept-LedgerStep a b _ _ s h
  IsPlaced-LedgerStep a b job (finished Outcome.failed) s h = IsKept-LedgerStep a b _ _ s h

  find-IsKept :
      (shot row : NormalisedShot N) (rows : List (NormalisedShot N))
      → find (same_key shot) rows ≡ some row
      → (k : Key) × In k (map key_of rows)
        × (k.vendor ≡ shot.vendor)
        × (k.idempotency_key ≡ shot.idempotency_key)
  find-IsKept shot row [] h = cc
  find-IsKept shot row (x ∷ rows) h = elim (Bool-cases (same_key shot x)) [
    | inl e ↦
        let (v, t) = &&-eq-true _ _ e in
        (
          key_of x,
          here,
          sym ((vendor_eq_iff shot.vendor x.vendor).0 v),
          sym ((text_eq_iff _ _).0 t),
        )
    | inr e ↦ let (k, i, v, t) = find-IsKept shot row rows (rw e at h) in (k, there i, v, t)
  ]

  Upserted-IsKept :
      (shot : NormalisedShot N) (now : ℤ) (db db' : Database N) (r : UpsertResult)
      (announced : List Text)
      → Upserted shot now db r db'
      → IsKept (tables db' announced) shot.vendor shot.idempotency_key
  Upserted-IsKept shot now db db' r announced (known row _ found same) =
      subst (λ d. IsKept (tables d announced) shot.vendor shot.idempotency_key) (sym same)
        (find-IsKept shot row db.shots found)
  Upserted-IsKept shot now db db' r announced (new _ _ _ same) =
      subst (λ d. IsKept (tables d announced) shot.vendor shot.idempotency_key) (sym same)
        (
          key_of shot,
          subst (In (key_of shot)) (sym (map-append key_of db.shots (shot ∷ [])))
              (In-right (map key_of db.shots) (key_of shot ∷ []) (key_of shot) here),
          refl,
          refl,
        )

module _ {N : Type 0} ⦃num : Number N⦄ ⦃p : Platform⦄ ⦃ser : Serialiser N⦄ where
  stage-started :
      (now : ℤ) (job : ShotJob N) (stage : Progress N) (w w' : World N)
      → advance now job started w ≡ some (stage, w')
      → (stage ≡ finished rejected_clock)
        ⊎ (stage
            ≡ resolved (
                with_canonical job.normalised_shot
                  (resolve_canonical_user_id
                    (vendor_text job.normalised_shot.vendor)
                    job.normalised_shot.vendor_user_id
                    w).0))
  unfolding advance
  stage-started now job stage w w' h = ground arith

  stage-resolved :
      (now : ℤ) (job : ShotJob N) (shot : NormalisedShot N) (stage : Progress N) (w w' : World N)
      (r : UpsertResult)
      → upsert_if_new shot now w.db ≡ some (r, w'.db)
      → advance now job (resolved shot) w ≡ some (stage, w')
      → (stage ≡ inserted shot r.canonical_shot_id) ⊎ (stage ≡ finished duplicate_exact)
  unfolding advance
  stage-resolved now job shot stage w w' r e h = ground (arith, e)

  stage-inserted :
      (now : ℤ) (job : ShotJob N) (shot : NormalisedShot N) (id : Text) (stage : Progress N)
      (w w' : World N)
      → advance now job (inserted shot id) w ≡ some (stage, w')
      → (stage ≡ finished accepted) ⊎ ((origin : Text) × (stage ≡ flagged id origin))
  unfolding advance
  stage-inserted now job shot id stage w w' h =
      elim (Option-cases (check_and_flag_near_duplicates shot w.db).0) [
        | inl e ↦ inl (ground (arith, e))
        | inr (origin, e) ↦ inr (origin, ground (arith, e))
      ]

  stage-flagged :
      (now : ℤ) (job : ShotJob N) (id origin : Text) (stage : Progress N) (w w' : World N)
      → advance now job (flagged id origin) w ≡ some (stage, w')
      → stage ≡ finished duplicate_near
  unfolding advance
  stage-flagged now job id origin stage w w' h = ground arith

  stage-finished :
      (now : ℤ) (job : ShotJob N) (outcome : Outcome) (stage : Progress N) (w w' : World N)
      → advance now job (finished outcome) w ≡ some (stage, w')
      → stage ≡ finished outcome
  unfolding advance
  stage-finished now job outcome stage w w' h = ground arith

  pub advance-IsPlaced :
      (now : ℤ) (job : ShotJob N) (stage stage' : Progress N) (w w' : World N)
      (announced : List Text)
      → advance now job stage w ≡ some (stage', w')
      → IsPlaced (tables w.db announced) job stage
      → IsPlaced (tables w'.db announced) job stage'
  advance-IsPlaced now job started stage' w w' announced h g =
      elim (stage-started now job stage' w w' h) [
        | inl e ↦ subst (IsPlaced (tables w'.db announced) job) (sym e) tt
        | inr e ↦
            let c =
              (resolve_canonical_user_id (vendor_text job.normalised_shot.vendor)
                job.normalised_shot.vendor_user_id w).0 in
            subst (IsPlaced (tables w'.db announced) job) (sym e)
              (same_vendor job.normalised_shot c, same_idempotency_key job.normalised_shot c)
      ]
  advance-IsPlaced now job (resolved shot) stage' w w' announced h (v, t) =
      let (r, e) = upserted-resolved now job shot stage' w w' h in
      let (k, i, kv, kt) =
        Upserted-IsKept shot now w.db w'.db r announced
          (upsert_if_new-Upserted shot now w.db w'.db r e) in
      let kept : IsKept (tables w'.db announced) job.normalised_shot.vendor
          job.normalised_shot.idempotency_key =
        (k, i, kv ∙ v, kt ∙ t) in
      elim (stage-resolved now job shot stage' w w' r e h) [
        | inl q ↦ subst (IsPlaced (tables w'.db announced) job) (sym q) kept
        | inr q ↦ subst (IsPlaced (tables w'.db announced) job) (sym q) kept
      ]
  advance-IsPlaced now job (inserted shot id) stage' w w' announced h g =
      let kept =
        IsKept-LedgerStep (tables w.db announced) (tables w'.db announced) _ _
          (advance-LedgerStep now job (inserted shot id) stage' w w' announced h) g in
      elim (stage-inserted now job shot id stage' w w' h) [
        | inl q ↦ subst (IsPlaced (tables w'.db announced) job) (sym q) kept
        | inr (origin, q) ↦ subst (IsPlaced (tables w'.db announced) job) (sym q) kept
      ]
  advance-IsPlaced now job (flagged id origin) stage' w w' announced h g =
      subst (IsPlaced (tables w'.db announced) job)
        (sym (stage-flagged now job id origin stage' w w' h))
        (IsKept-LedgerStep (tables w.db announced) (tables w'.db announced) _ _
          (advance-LedgerStep now job (flagged id origin) stage' w w' announced h) g)
  advance-IsPlaced now job (finished outcome) stage' w w' announced h g =
      subst (IsPlaced (tables w'.db announced) job)
        (sym (stage-finished now job outcome stage' w w' h))
        (IsPlaced-LedgerStep (tables w.db announced) (tables w'.db announced) job (finished outcome)
          (advance-LedgerStep now job (finished outcome) stage' w w' announced h) g)
