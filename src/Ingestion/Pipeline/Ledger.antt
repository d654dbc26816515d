-- ===== src/Ingestion/Pipeline/Ledger.antt =====
-- What src/ingestion/ promises, without stages, rows and retries: the keys of the shots that are
-- stored, the notices of them that wait in the outbox, and the ids of the shots that were announced.
use mathlib.Core.Path.{subst}
use pureplay_analytics_inges.Prelude.{
  ℕ, suc, ◌<◌, ◌≡◌, ◌≢◌, ◌⊎◌, inl, inr, refl, sym, Bool, true, false, not, ◌&&◌, List, [], ◌∷◌,
  ◌++◌, Text, text_eq, text_eq_comm, ◌∙◌, any, keep, ◌==◌, keep-All_of, All-In, All, All-append,
  All-map, In, here, there, arith, Bool-cases,
}
use pureplay_analytics_inges.Domain.Shot.{Vendor, vendor_eq, vendor_eq_comm}
use pureplay_analytics_inges.Ingestion.Repository.{shot_persisted}

pub record Key : Type 0 where
  pub vendor : Vendor
  pub idempotency_key : Text
  pub id : Text

pub record Notice : Type 0 where
  pub number : ℕ
  pub type : Text
  pub id : Text

pub record Ledger : Type 0 where
  pub stored : List Key
  pub waiting : List Notice
  pub next_number : ℕ
  pub announced : List Text

abbrev pub same_place : Key → Key → Bool
same_place k l = vendor_eq k.vendor l.vendor && text_eq k.idempotency_key l.idempotency_key

abbrev pub is_among : List ℕ → Notice → Bool
is_among numbers n = any (λ m. m == n.number) numbers

pub data LedgerStep (a b : Ledger) : Type 0 where
  unchanged : b ≡ a → LedgerStep a b
  -- A shot of a new key and id is stored together with its notice.
  persisted :
      (k : Key)
      → any (same_place k) a.stored ≡ false
      → All (λ l. l.id ≢ k.id) a.stored
      → b ≡ record a {
        stored = a.stored ++ k ∷ [];
        waiting =
            a.waiting ++ record { number = a.next_number; type = shot_persisted; id = k.id } ∷ [];
        next_number = suc a.next_number;
      }
      → LedgerStep a b
  -- Shots are announced, and then notices of shots that were announced are dropped.
  announced_shots :
      (numbers : List ℕ) (ids : List Text)
      → All (λ id. (n : Notice) × In n a.waiting × (n.id ≡ id)) ids
      → All (λ n. is_among numbers n ≡ true → n.type ≡ shot_persisted → In n.id ids) a.waiting
      → b ≡ record a {
        waiting = keep (λ n. not (is_among numbers n)) a.waiting;
        announced = a.announced ++ ids;
      }
      → LedgerStep a b

module _ {A : Type 0} where
  pub In-left : (xs ys : List A) (a : A) → In a xs → In a (xs ++ ys)
  In-left [] ys a i = elim i [ ]
  In-left (x ∷ xs) ys a here = here
  In-left (x ∷ xs) ys a (there i) = there (In-left xs ys a i)

  pub In-right : (xs ys : List A) (a : A) → In a ys → In a (xs ++ ys)
  In-right [] ys a i = i
  In-right (x ∷ xs) ys a i = there (In-right xs ys a i)

  In-keep : (p : A → Bool) (xs : List A) (a : A) → p a ≡ true → In a xs → In a (keep p xs)
  In-keep p [] a h i = elim i [ ]
  In-keep p (x ∷ xs) a h here = rw h here
  In-keep p (x ∷ xs) a h (there i) = elim (Bool-cases (p x)) [
    | inl e ↦ rw e (there (In-keep p xs a h i))
    | inr e ↦ rw e (In-keep p xs a h i)
  ]

abbrev pub AreDistinct : List Key → Type 0
AreDistinct [] = Unit
AreDistinct (k ∷ ks) = All (λ l. (same_place k l ≡ false) × (k.id ≢ l.id)) ks × AreDistinct ks

abbrev pub AreNumbered : ℕ → List Notice → Type 0
AreNumbered next [] = Unit
AreNumbered next (n ∷ ns) =
    (n.number < next) × All (λ m. n.number ≢ m.number) ns × AreNumbered next ns

abbrev pub IsStored : Ledger → Text → Type 0
IsStored a id = (k : Key) × In k a.stored × (k.id ≡ id)

abbrev pub IsWaiting : Ledger → Text → Type 0
IsWaiting a id = (n : Notice) × In n a.waiting × (n.id ≡ id)

pub record IsConsistent (a : Ledger) : Type 0 where
  pub distinct : AreDistinct a.stored
  pub numbered : AreNumbered a.next_number a.waiting
  pub typed : All (λ n. n.type ≡ shot_persisted) a.waiting
  -- No stored shot is forgotten.
  pub covered : All (λ k. IsWaiting a k.id ⊎ In k.id a.announced) a.stored
  -- Only stored shots are announced.
  pub waiting_stored : All (λ n. IsStored a n.id) a.waiting
  pub announced_stored : All (λ id. IsStored a id) a.announced

same_place_comm : (k l : Key) → same_place k l ≡ same_place l k
same_place_comm k l =
    rw (vendor_eq_comm k.vendor l.vendor, text_eq_comm k.idempotency_key l.idempotency_key)

AreDistinct-append :
    (ks : List Key) (k : Key)
    → AreDistinct ks
    → any (same_place k) ks ≡ false
    → All (λ l. l.id ≢ k.id) ks
    → AreDistinct (ks ++ k ∷ [])
AreDistinct-append [] k d p i = (tt, tt)
AreDistinct-append (l ∷ ks) k d p i = (
  All-append (λ m. (same_place l m ≡ false) × (l.id ≢ m.id)) ks (k ∷ []) d.0
      ((same_place_comm l k ∙ (ground arith), i.0), tt),
  AreDistinct-append ks k d.1 (ground arith) i.1,
)

AreNumbered-append :
    (next : ℕ) (ns : List Notice) (n : Notice)
    → n.number ≡ next
    → AreNumbered next ns
    → AreNumbered (suc next) (ns ++ n ∷ [])
AreNumbered-append next [] n e h = (omega arith, tt, tt)
AreNumbered-append next (m ∷ ns) n e h = (
  omega arith,
  All-append (λ o. m.number ≢ o.number) ns (n ∷ []) h.1 ((λ q. omega arith), tt),
  AreNumbered-append next ns n e h.2,
)

AreNumbered-keep :
    (next : ℕ) (p : Notice → Bool) (ns : List Notice)
    → AreNumbered next ns
    → AreNumbered next (keep p ns)
AreNumbered-keep next p [] h = tt
AreNumbered-keep next p (n ∷ ns) h = elim (Bool-cases (p n)) [
  | inl e ↦
      rw e (h.0, keep-All_of (λ m. n.number ≢ m.number) p ns h.1, AreNumbered-keep next p ns h.2)
  | inr e ↦ rw e (AreNumbered-keep next p ns h.2)
]

persisted-IsConsistent :
    (a : Ledger) (k : Key)
    → any (same_place k) a.stored ≡ false
    → All (λ l. l.id ≢ k.id) a.stored
    → IsConsistent a
    → IsConsistent (record a {
      stored = a.stored ++ k ∷ [];
      waiting =
          a.waiting ++ record { number = a.next_number; type = shot_persisted; id = k.id } ∷ [];
      next_number = suc a.next_number;
    })
persisted-IsConsistent a k place fresh h =
    let n : Notice = record { number = a.next_number; type = shot_persisted; id = k.id } in
    let stored : (id : Text) → IsStored a id → (l : Key) × In l (a.stored ++ k ∷ []) × (l.id ≡ id) =
      λ id (l, i, e). (l, In-left a.stored (k ∷ []) l i, e) in
    record {
      distinct = AreDistinct-append a.stored k h.distinct place fresh;
      numbered = AreNumbered-append a.next_number a.waiting n refl h.numbered;
      typed = All-append _ a.waiting (n ∷ []) h.typed (refl, tt);
      covered =
          All-append _ a.stored (k ∷ []) (All-map _ _ (λ l c. waits_on l.id c) a.stored h.covered)
            (inl (n, In-right a.waiting (n ∷ []) n here, refl), tt);
      waiting_stored =
          All-append _ a.waiting (n ∷ [])
            (All-map _ _ (λ m i. stored m.id i) a.waiting h.waiting_stored)
            ((k, In-right a.stored (k ∷ []) k here, refl), tt);
      announced_stored = All-map _ _ stored a.announced h.announced_stored;
    }
  where
    waits_on :
        (id : Text)
        → IsWaiting a id ⊎ In id a.announced
        → ((m : Notice) × In m (
              a.waiting ++ record { number = a.next_number; type = shot_persisted; id = k.id } ∷ [])
            × (m.id ≡ id))
          ⊎ In id a.announced
    waits_on id (inl (m, i, e)) = inl (m, In-left a.waiting _ m i, e)
    waits_on id (inr i) = inr i

announced-IsConsistent :
    (a : Ledger) (numbers : List ℕ) (ids : List Text)
    → All (λ id. (n : Notice) × In n a.waiting × (n.id ≡ id)) ids
    → All (λ n. is_among numbers n ≡ true → n.type ≡ shot_persisted → In n.id ids) a.waiting
    → IsConsistent a
    → IsConsistent (record a {
      waiting = keep (λ n. not (is_among numbers n)) a.waiting;
      announced = a.announced ++ ids;
    })
announced-IsConsistent a numbers ids known told h = record {
  distinct = h.distinct;
  numbered = AreNumbered-keep a.next_number _ a.waiting h.numbered;
  typed = keep-All_of _ _ a.waiting h.typed;
  covered = All-map _ _ (λ k c. still k.id c) a.stored h.covered;
  waiting_stored = keep-All_of _ _ a.waiting h.waiting_stored;
  announced_stored = All-append _ a.announced ids h.announced_stored (
      All-map _ _ (λ id (n, i, e). subst (IsStored a) e (All-In _ a.waiting n h.waiting_stored i))
        ids known);
}
  where
    still :
        (id : Text)
        → IsWaiting a id ⊎ In id a.announced
        → ((n : Notice) × In n (keep (λ m. not (is_among numbers m)) a.waiting) × (n.id ≡ id))
          ⊎ In id (a.announced ++ ids)
    still id (inr i) = inr (In-left a.announced ids id i)
    still id (inl (n, i, e)) = elim (Bool-cases (is_among numbers n)) [
      | inl m ↦ inr (
          In-right a.announced ids id (
            subst (λ t. In t ids) e
              (All-In _ a.waiting n told i m (All-In _ a.waiting n h.typed i))))
      | inr m ↦ inl (n, In-keep (λ r. not (is_among numbers r)) a.waiting n (rw m refl) i, e)
    ]

-- Each step of the ledger keeps it consistent.
pub LedgerStep-IsConsistent : (a b : Ledger) → LedgerStep a b → IsConsistent a → IsConsistent b
LedgerStep-IsConsistent a b (unchanged e) h = subst IsConsistent (sym e) h
LedgerStep-IsConsistent a b (persisted k place fresh e) h =
    subst IsConsistent (sym e) (persisted-IsConsistent a k place fresh h)
LedgerStep-IsConsistent a b (announced_shots numbers ids known told e) h =
    subst IsConsistent (sym e) (announced-IsConsistent a numbers ids known told h)
