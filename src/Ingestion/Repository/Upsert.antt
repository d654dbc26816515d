-- ===== src/Ingestion/Repository/Upsert.antt =====
-- `upsertIfNew` of src/ingestion/shot-repository.ts.
use mathlib.Core.Bool.{false≢true}
use pureplay_analytics_inges.Prelude.{
  ◌+◌, ◌≡◌, refl, ap, sym, ◌∙◌, Bool, true, false, ◌&&◌, Option, none, some, List, [], ◌∷◌, ◌++◌,
  Text, text_eq, text_eq_refl, text_eq_comm, ℤ, find, any, length, length-append, arith, inl, inr,
  Bool-cases, some_pair-injective, All, All-append,
}
use pureplay_analytics_inges.Platform.{Number}
use pureplay_analytics_inges.Domain.Shot.{NormalisedShot, vendor_eq, vendor_eq_iff, vendor_eq_comm}
use pureplay_analytics_inges.Database.{
  Database, Insertion, rejected, conflict, stored, insert_shot, same_key, has_id, satisfies_checks,
}
use pureplay_analytics_inges.Ingestion.Repository.{
  UpsertResult, upsert_if_new, shot_persisted, without_payload, add_event, after_insert,
}

module _ {N : Type 0} where
  -- No two rows share a vendor and idempotency key, or a canonical id.
  abbrev pub IsUnique : List (NormalisedShot N) → Type 0
  IsUnique [] = Unit
  IsUnique (s ∷ rows) =
      All (λ row. (same_key s row ≡ false) × (has_id s.canonical_shot_id row ≡ false)) rows
      × IsUnique rows

  same_key_refl : (s : NormalisedShot N) → same_key s s ≡ true
  same_key_refl s = rw ((vendor_eq_iff s.vendor s.vendor).1 refl, text_eq_refl s.idempotency_key)

  same_key_comm : (s t : NormalisedShot N) → same_key s t ≡ same_key t s
  same_key_comm s t =
      rw (vendor_eq_comm s.vendor t.vendor, text_eq_comm s.idempotency_key t.idempotency_key)

module _ {N : Type 0} ⦃num : Number N⦄ where
  insert_shot-stored :
      (s : NormalisedShot N) (rows : List (NormalisedShot N)) (id : Text)
      → insert_shot s rows ≡ stored id
      → (id ≡ s.canonical_shot_id)
        × (any (same_key s) rows ≡ false)
        × (any (has_id s.canonical_shot_id) rows ≡ false)
  unfolding insert_shot
  insert_shot-stored s rows id h = ground arith

  insert_shot-conflict :
      (s : NormalisedShot N) (rows : List (NormalisedShot N))
      → insert_shot s rows ≡ conflict
      → (any (same_key s) rows ≡ true) × (satisfies_checks s ≡ true)
  unfolding insert_shot
  insert_shot-conflict s rows h = ground arith

-- What a transaction of `upsertIfNew` has done when it returns.
pub data Upserted {N : Type 0} (s : NormalisedShot N) (now : ℤ) (db : Database N) (r : UpsertResult)
    (db' : Database N) : Type 0 where
  new :
      r ≡ record { inserted = true; canonical_shot_id = s.canonical_shot_id }
      → any (same_key s) db.shots ≡ false
      → any (has_id s.canonical_shot_id) db.shots ≡ false
      → db'
        ≡ add_event shot_persisted
            (without_payload s)
            now
            (record db { shots = db.shots ++ s ∷ [] })
      → Upserted s now db r db'
  known :
      (row : NormalisedShot N)
      → r ≡ record { inserted = false; canonical_shot_id = row.canonical_shot_id }
      → find (same_key s) db.shots ≡ some row
      → db' ≡ db
      → Upserted s now db r db'

find-any :
    {A : Type 0} (p : A → Bool) (xs : List A) → any p xs ≡ true → (a : A) × (find p xs ≡ some a)
find-any p [] h = cc
find-any p (x ∷ xs) h = elim (Bool-cases (p x)) [
  | inl e ↦ (x, rw e)
  | inr e ↦ rw e (find-any p xs (rw e at h))
]

module _ {N : Type 0} ⦃num : Number N⦄ where
  after_insert-Upserted :
      (s : NormalisedShot N) (now : ℤ) (db db' : Database N) (r : UpsertResult) (i : Insertion)
      → insert_shot s db.shots ≡ i
      → after_insert s now db i ≡ some (r, db')
      → Upserted s now db r db'
  after_insert-Upserted s now db db' r rejected e h = cc
  after_insert-Upserted s now db db' r conflict e h =
      let (row, found) = find-any (same_key s) db.shots (insert_shot-conflict s db.shots e).0 in
      let (same_r, same_db) = some_pair-injective (rw found at h) in
      known row (sym same_r) found (sym same_db)
  after_insert-Upserted s now db db' r (stored id) e h =
      let (same, no_key, no_id) = insert_shot-stored s db.shots id e in
      let (same_r, same_db) = some_pair-injective h in
      new (sym same_r ∙ ap (λ t. record { inserted = true; canonical_shot_id = t }) same) no_key
        no_id (sym same_db)

  -- A transaction of `upsertIfNew` that returns has done one of two things. Either no row had
  -- the shot's vendor and idempotency key, or its id, and now the shot is the last row, and its
  -- `shot.persisted` event, without the raw payload, the last of the outbox. Or some row has
  -- that key, the answer is the id of the first such row, and no table has changed.
  pub upsert_if_new-Upserted :
      (s : NormalisedShot N) (now : ℤ) (db db' : Database N) (r : UpsertResult)
      → upsert_if_new s now db ≡ some (r, db')
      → Upserted s now db r db'
  unfolding upsert_if_new
  upsert_if_new-Upserted s now db db' r h =
      after_insert-Upserted s now db db' r (insert_shot s db.shots) refl h

  find-append_self :
      (s : NormalisedShot N) (rows : List (NormalisedShot N))
      → any (same_key s) rows ≡ false
      → (any (same_key s) (rows ++ s ∷ []) ≡ true) × (find (same_key s) (rows ++ s ∷ []) ≡ some s)
  find-append_self s [] h = rw (same_key_refl s) (refl, refl)
  find-append_self s (x ∷ rows) h =
      let h' = find-append_self s rows (ground arith) in
      elim (Bool-cases (same_key s x)) [
        | inl e ↦ absurd (false≢true (sym h ∙ rw e refl))
        | inr e ↦ rw e h'
      ]

  find-any-true :
      (p : NormalisedShot N → Bool) (rows : List (NormalisedShot N)) (row : NormalisedShot N)
      → find p rows ≡ some row
      → any p rows ≡ true
  find-any-true p [] row h = cc
  find-any-true p (x ∷ rows) row h = elim (Bool-cases (p x)) [
    | inl e ↦ rw e
    | inr e ↦ rw e (find-any-true p rows row (rw e at h))
  ]

  pub upsert_if_new-satisfies_checks :
      (s : NormalisedShot N) (now : ℤ) (db : Database N) (o : UpsertResult × Database N)
      → upsert_if_new s now db ≡ some o
      → satisfies_checks s ≡ true
  unfolding upsert_if_new insert_shot
  upsert_if_new-satisfies_checks s now db o h = elim (Bool-cases (satisfies_checks s)) [
    | inl e ↦ e
    | inr e ↦ absurd (none-ne-some (rw e at h))
  ]
    where
      none-ne-some : ◌≡◌ {A = Option (UpsertResult × Database N)} none (some o) → ⊥
      none-ne-some q = cc

  upsert_if_new-known :
      (s row : NormalisedShot N) (now : ℤ) (db : Database N)
      → satisfies_checks s ≡ true
      → find (same_key s) db.shots ≡ some row
      → upsert_if_new s now db
        ≡ some (record { inserted = false; canonical_shot_id = row.canonical_shot_id }, db)
  unfolding upsert_if_new insert_shot
  upsert_if_new-known s row now db ok found =
      rw (ok, find-any-true (same_key s) db.shots row found, found)

  find-same_key :
      (s t : NormalisedShot N) (rows : List (NormalisedShot N))
      → s.vendor ≡ t.vendor
      → s.idempotency_key ≡ t.idempotency_key
      → find (same_key t) rows ≡ find (same_key s) rows
  find-same_key s t rows same_vendor same_text = sym (
      ap
        (λ v.
          find (λ row. vendor_eq v row.vendor && text_eq s.idempotency_key row.idempotency_key)
            rows)
        same_vendor
      ∙ ap (λ k. find (λ row. vendor_eq t.vendor row.vendor && text_eq k row.idempotency_key) rows)
          same_text)

  found_after :
      (s : NormalisedShot N) (now : ℤ) (db db' : Database N) (r : UpsertResult)
      → Upserted s now db r db'
      → (row : NormalisedShot N) × (find (same_key s) db'.shots ≡ some row)
        × (row.canonical_shot_id ≡ r.canonical_shot_id)
  found_after s now db db' r (new same_r no_key no_id same_db) =
      rw (same_r, same_db) (s, (find-append_self s db.shots no_key).1, refl)
  found_after s now db db' r (known row same_r found same_db) =
      rw (same_r, same_db) (row, found, refl)

  -- After an insertion that returned, a shot of the same key is answered with the same id.
  pub upsert_if_new-same_key :
      (s t : NormalisedShot N) (now later : ℤ) (db db' : Database N) (r : UpsertResult)
      → s.vendor ≡ t.vendor
      → s.idempotency_key ≡ t.idempotency_key
      → satisfies_checks t ≡ true
      → upsert_if_new s now db ≡ some (r, db')
      → upsert_if_new t later db'
        ≡ some (record { inserted = false; canonical_shot_id = r.canonical_shot_id }, db')
  upsert_if_new-same_key s t now later db db' r same_vendor same_text ok h =
      let (row, found, same_id) =
        found_after s now db db' r (upsert_if_new-Upserted s now db db' r h) in
      upsert_if_new-known t row later db' ok
        (find-same_key s t db'.shots same_vendor same_text ∙ found)
      ∙ ap (λ id. some (record { inserted = false; canonical_shot_id = id }, db')) same_id

  -- After an `upsertIfNew` that returned, a second one of the same shot, at any time, answers
  -- that nothing was inserted, with the same id, and changes no table.
  pub upsert_if_new_twice :
      (s : NormalisedShot N) (now later : ℤ) (db db' : Database N) (r : UpsertResult)
      → upsert_if_new s now db ≡ some (r, db')
      → upsert_if_new s later db'
        ≡ some (record { inserted = false; canonical_shot_id = r.canonical_shot_id }, db')
  upsert_if_new_twice s now later db db' r h =
      upsert_if_new-same_key s s now later db db' r refl refl
        (upsert_if_new-satisfies_checks s now db _ h) h

  IsUnique-append :
      (s : NormalisedShot N) (rows : List (NormalisedShot N))
      → any (same_key s) rows ≡ false
      → any (has_id s.canonical_shot_id) rows ≡ false
      → IsUnique rows
      → IsUnique (rows ++ s ∷ [])
  IsUnique-append s [] h k u = (tt, tt)
  IsUnique-append s (x ∷ rows) h k u = (
    All-append _ rows (s ∷ []) u.0 ((key_free, id_free), tt),
    IsUnique-append s rows (ground arith) (ground arith) u.1,
  )
    where
      key_free : same_key x s ≡ false
      key_free = same_key_comm x s ∙ (ground arith)

      id_free : has_id x.canonical_shot_id s ≡ false
      id_free = text_eq_comm s.canonical_shot_id x.canonical_shot_id ∙ (ground arith)

  -- An `upsertIfNew` that returns keeps the pairs of vendor and idempotency key, and the ids,
  -- of the rows unique if they were, and adds as many rows to the outbox as to the shots.
  pub upsert_if_new-IsUnique :
      (s : NormalisedShot N) (now : ℤ) (db db' : Database N) (r : UpsertResult)
      → IsUnique db.shots
      → upsert_if_new s now db ≡ some (r, db')
      → IsUnique db'.shots
        × (length db'.outbox_events + length db.shots ≡ length db.outbox_events + length db'.shots)
  upsert_if_new-IsUnique s now db db' r u h = kept (upsert_if_new-Upserted s now db db' r h)
    where
      kept :
          Upserted s now db r db'
          → IsUnique db'.shots
            × (length db'.outbox_events + length db.shots
                ≡ length db.outbox_events + length db'.shots)
      kept (new same_r no_key no_id same_db) = rw same_db (
        IsUnique-append s db.shots no_key no_id u,
        omega (arith, length-append db.shots (s ∷ []), length-append db.outbox_events),
      )
      kept (known row same_r found same_db) = rw same_db (u, omega arith)
