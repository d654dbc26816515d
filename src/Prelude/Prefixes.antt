-- ===== src/Prelude/Prefixes.antt =====
-- The first rows of a list, and the last of them.
use mathlib.Core.List.{append_assoc}
use Prim.Native.Nat.{ℕ, zero, suc, ◌-◌, ◌≤◌}
use mathlib.Core.Path.{sym, ◌∙◌, ◌≡◌, refl, ap}
use mathlib.Core.List.{List, [], ◌∷◌, ◌++◌, map}
use mathlib.Core.Option.{Option, none, some}
use native.Mathlib.Omega.{arith}
use pureplay_analytics_inges.Prelude.Lists.{length, take, All, drop, take-append-drop}

abbrev pub last? : {A : Type 0} → List A → Option A
last? [] = none
last? (x ∷ []) = some x
last? (x ∷ y ∷ rows) = last? (y ∷ rows)

module _ {A : Type 0} where
  pub take-all : (n : ℕ) (xs : List A) → length xs ≤ n → take n xs ≡ xs
  take-all zero [] h = refl
  take-all zero (x ∷ xs) h = absurd (omega arith)
  take-all (suc n) [] h = refl
  take-all (suc n) (x ∷ xs) h = ap (λ r. x ∷ r) (take-all n xs (omega arith))

  pub take-take : (n : ℕ) (xs : List A) → take n (take (suc n) xs) ≡ take n xs
  take-take zero xs = refl
  take-take (suc n) [] = refl
  take-take (suc n) (x ∷ xs) = ap (λ r. x ∷ r) (take-take n xs)

  -- The first rows of a list that has as many, with the last of them apart.
  pub record Ends (n : ℕ) (xs : List A) : Type 0 where
    pub front : List A
    pub end : A
    pub is_taken : take (suc n) xs ≡ front ++ end ∷ []
    pub is_last : last? (take (suc n) xs) ≡ some end

  pub take-Ends : (n : ℕ) (xs : List A) → suc n ≤ length xs → Ends n xs
  take-Ends n [] h = absurd (omega arith)
  take-Ends zero (x ∷ xs) h = record { front = []; end = x; is_taken = refl; is_last = refl }
  take-Ends (suc n) (x ∷ []) h = absurd (omega arith)
  take-Ends (suc n) (x ∷ y ∷ xs) h =
      let e = take-Ends n (y ∷ xs) (omega arith) in
      record {
        front = x ∷ e.front;
        end = e.end;
        is_taken = ap (λ r. x ∷ r) e.is_taken;
        is_last = e.is_last;
      }

  pub Ends-split : (n : ℕ) (xs : List A) (e : Ends n xs) → xs ≡ e.front ++ e.end ∷ drop (suc n) xs
  Ends-split n xs e =
      sym (take-append-drop (suc n) xs)
      ∙ ap (λ t. t ++ drop (suc n) xs) e.is_taken
      ∙ append_assoc e.front (e.end ∷ []) (drop (suc n) xs)

  pub length-drop : (n : ℕ) (xs : List A) → length (drop n xs) ≡ length xs - n
  length-drop zero xs = omega arith
  length-drop (suc n) [] = omega arith
  length-drop (suc n) (x ∷ xs) = omega (arith, length-drop n xs)

module _ {A B : Type 0} where
  pub map-All :
      (P : A → Type 0) (Q : B → Type 0) (f : A → B)
      → ((row : A) → P row → Q (f row))
      → (rows : List (A)) → All P rows
      → All Q (map f rows)
  map-All P Q f g [] h = tt
  map-All P Q f g (x ∷ rows) h = (g x h.0, map-All P Q f g rows h.1)

  pub length-map : (f : A → B) (rows : List (A)) → length (map f rows) ≡ length rows
  length-map f [] = omega arith
  length-map f (x ∷ rows) = omega (arith, length-map f rows)

module _ {A : Type 0} where
  pub take-All : (P : A → Type 0) (n : ℕ) (rows : List (A)) → All P rows → All P (take n rows)
  take-All P zero rows h = tt
  take-All P (suc n) [] h = tt
  take-All P (suc n) (x ∷ rows) h = (h.0, take-All P n rows h.1)
