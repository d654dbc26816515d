-- ===== src/Prelude/Lists.antt =====
-- Lists measured by native numbers, Boolean searches over lists, and predicates by recursion.
use Prim.Native.Nat.{ℕ, zero, suc, ◌+◌, min}
use mathlib.Core.Path.{sym, ◌∙◌, ◌≡◌, refl, ap}
use mathlib.Core.Logic.{inl, inr}
use mathlib.Core.Bool.{Bool, true, false, ◌||◌}
use mathlib.Core.List.{List, [], ◌∷◌, ◌++◌}
use mathlib.Core.Option.{Option, none, some}
use native.Mathlib.Omega.{arith}
use pureplay_analytics_inges.Prelude.Tests.{if◌then◌else◌, Bool-cases}

module _ {ℓ} {A : Type ℓ} where
  abbrev pub length : List A → ℕ
  length [] = 0
  length (x ∷ xs) = suc (length xs)

  abbrev pub take : ℕ → List A → List A
  take zero xs = []
  take (suc n) [] = []
  take (suc n) (x ∷ xs) = x ∷ take n xs

  abbrev pub drop : ℕ → List A → List A
  drop zero xs = xs
  drop (suc n) [] = []
  drop (suc n) (x ∷ xs) = drop n xs

  abbrev pub head? : List A → Option A
  head? [] = none
  head? (x ∷ xs) = some x

  -- The rows that pass a test, in order.
  abbrev pub keep : (A → Bool) → List A → List A
  keep p [] = []
  keep p (x ∷ xs) = if p x then x ∷ keep p xs else keep p xs

  abbrev pub find : (A → Bool) → List A → Option A
  find p [] = none
  find p (x ∷ xs) = if p x then some x else find p xs

  abbrev pub any : (A → Bool) → List A → Bool
  any p [] = false
  any p (x ∷ xs) = p x || any p xs

  abbrev pub count : (A → Bool) → List A → ℕ
  count p [] = 0
  count p (x ∷ xs) = if p x then suc (count p xs) else count p xs

  -- Rows that pass a test are rewritten, the others stay.
  abbrev pub update_where : (A → Bool) → (A → A) → List A → List A
  update_where p f [] = []
  update_where p f (x ∷ xs) = (if p x then f x else x) ∷ update_where p f xs

  abbrev pub All {κ} : (A → Type κ) → List A → Type κ
  All P [] = Unit
  All P (x ∷ xs) = P x × All P xs

module _ {ℓ} {A : Type ℓ} where
  pub length-append : (xs ys : List A) → length (xs ++ ys) ≡ length xs + length ys
  length-append [] ys = omega arith
  length-append (x ∷ xs) ys = omega (arith, length-append xs ys)

  pub take-append-drop : (n : ℕ) (xs : List A) → take n xs ++ drop n xs ≡ xs
  take-append-drop zero xs = refl
  take-append-drop (suc n) [] = refl
  take-append-drop (suc n) (x ∷ xs) = ap (λ r. x ∷ r) (take-append-drop n xs)

  pub length-take : (n : ℕ) (xs : List A) → length (take n xs) ≡ min n (length xs)
  length-take zero xs = omega arith
  length-take (suc n) [] = omega arith
  length-take (suc n) (x ∷ xs) = omega (arith, length-take n xs)

  pub count-append : (p : A → Bool) (xs ys : List A) → count p (xs ++ ys) ≡ count p xs + count p ys
  count-append p [] ys = omega arith
  count-append p (x ∷ xs) ys = ground (arith, count-append p xs ys)

  pub All-append {κ} : (P : A → Type κ) (xs ys : List A) → All P xs → All P ys → All P (xs ++ ys)
  All-append P [] ys h k = k
  All-append P (x ∷ xs) ys h k = (h.0, All-append P xs ys h.1 k)

  pub All-map {κ λ'} :
      (P : A → Type κ) (Q : A → Type λ') (f : (a : A) → P a → Q a) (xs : List A)
      → All P xs
      → All Q xs
  All-map P Q f [] h = tt
  All-map P Q f (x ∷ xs) h = (f x h.0, All-map P Q f xs h.1)

  pub find-eq-some :
      (p : A → Bool) (P : A → Type 0) (xs : List A) (a : A)
      → find p xs ≡ some a
      → All P xs
      → (p a ≡ true) × P a
  find-eq-some p P [] a h k = cc
  find-eq-some p P (x ∷ xs) a h k = elim (Bool-cases (p x)) [
    | inl e ↦ ground arith
    | inr e ↦ find-eq-some p P xs a (ground arith) k.1
  ]

-- A row of a table.
pub data In {ℓ} {A : Type ℓ} (a : A) : List A → Type ℓ where
  here : {xs : List A} → In a (a ∷ xs)
  there : {x : A} {xs : List A} → In a xs → In a (x ∷ xs)

module _ {ℓ} {A : Type ℓ} where
  pub All-In {κ} : (P : A → Type κ) (xs : List A) (a : A) → All P xs → In a xs → P a
  All-In P [] a h i = elim i [ ]
  All-In P (x ∷ xs) a h here = h.0
  All-In P (x ∷ xs) a h (there i) = All-In P xs a h.1 i

  pub All-of-In {κ} : (P : A → Type κ) (xs : List A) → ((a : A) → In a xs → P a) → All P xs
  All-of-In P [] f = tt
  All-of-In P (x ∷ xs) f = (f x here, All-of-In P xs (λ a i. f a (there i)))

  pub keep-All : (p : A → Bool) (xs : List A) → All (λ a. (p a ≡ true) × In a xs) (keep p xs)
  keep-All p [] = tt
  keep-All p (x ∷ xs) =
      let rest =
        All-map (λ a. (p a ≡ true) × In a xs) (λ a. (p a ≡ true) × In a (x ∷ xs))
          (λ a h. (h.0, there h.1)) (keep p xs) (keep-All p xs) in
      elim (Bool-cases (p x)) [ inl e ↦ rw e ((e, here), rest) | inr e ↦ rw e rest ]

  pub keep-All_of {κ} : (P : A → Type κ) (p : A → Bool) (ys : List A) → All P ys → All P (keep p ys)
  keep-All_of P p [] h = tt
  keep-All_of P p (y ∷ ys) h = elim (Bool-cases (p y)) [
    | inl e ↦ rw e (h.0, keep-All_of P p ys h.1)
    | inr e ↦ rw e (keep-All_of P p ys h.1)
  ]

  pub All-middle {κ} :
      (P : A → Type κ) (front : List A) (x : A) (rest : List A) → All P (front ++ x ∷ rest) → P x
  All-middle P [] x rest h = h.0
  All-middle P (y ∷ front) x rest h = All-middle P front x rest h.1

  pub keep-nil : (p : A → Bool) (xs : List A) → keep p xs ≡ [] → All (λ a. p a ≡ false) xs
  keep-nil p [] h = tt
  keep-nil p (x ∷ xs) h = elim (Bool-cases (p x)) [
    | inl e ↦ absurd (cons-ne-nil (rw e at h))
    | inr e ↦ (e, keep-nil p xs (rw e at h))
  ]
    where
      cons-ne-nil : x ∷ keep p xs ≡ [] → ⊥
      cons-ne-nil q = cc

  pub All-keep {κ} :
      (P : A → Type κ) (p : A → Bool) (xs : List A)
      → All P (keep p xs)
      → All (λ a. p a ≡ true → P a) xs
  All-keep P p [] h = tt
  All-keep P p (x ∷ xs) h = elim (Bool-cases (p x)) [
    | inl e ↦ let h' : P x × All P (keep p xs) = rw e at h in ((λ _. h'.0), All-keep P p xs h'.1)
    | inr e ↦ ((λ t. absurd (true-ne-false (sym t ∙ e))), All-keep P p xs (rw e at h))
  ]
    where
      true-ne-false : true ≡ false → ⊥
      true-ne-false q = cc
