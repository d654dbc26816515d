-- ===== src/Database/Order.antt =====
-- `ORDER BY key ASC`: a stable insertion sort, one of the orders that SQL allows on ties.
use mathlib.Core.Path.{subst}
use pureplay_analytics_inges.Prelude.{
  ◌≡◌, ◌∙◌, refl, Bool, true, false, List, [], ◌∷◌, ℤ, leb_ℤ, ◌≤ℤ◌, leb_ℤ→≤ℤ, if◌then◌else◌, arith,
  All, All-map, count, Bool-cases, inl, inr, head?, none, some,
}

≤ℤ-trans : (a b c : ℤ) → leb_ℤ a b ≡ true → b ≤ℤ c → a ≤ℤ c
≤ℤ-trans a b c h k = let h' = leb_ℤ→≤ℤ a b h in omega arith

≤ℤ-of-not-leb_ℤ : (a b : ℤ) → leb_ℤ a b ≡ false → b ≤ℤ a
≤ℤ-of-not-leb_ℤ a b h = ground arith

module _ {A : Type 0} (key : A → ℤ) where
  unfoldable pub insert_by : A → List A → List A
  insert_by x [] = x ∷ []
  insert_by x (y ∷ ys) = if leb_ℤ (key x) (key y) then x ∷ y ∷ ys else y ∷ insert_by x ys

  unfoldable pub order_by : List A → List A
  unfolding insert_by
  order_by [] = []
  order_by (x ∷ xs) = insert_by x (order_by xs)

  -- Ordering loses and makes up nothing.
  count-insert_by :
      (p : A → Bool) (x : A) (xs : List A) → count p (insert_by x xs) ≡ count p (x ∷ xs)
  unfolding insert_by
  count-insert_by p x [] = refl
  count-insert_by p x (y ∷ ys) = ground (arith, count-insert_by p x ys)

  pub count-order_by : (p : A → Bool) (xs : List A) → count p (order_by xs) ≡ count p xs
  unfolding order_by
  count-order_by p [] = refl
  count-order_by p (x ∷ xs) = count-insert_by p x (order_by xs) ∙ rw (count-order_by p xs)

  insert_by-All : (P : A → Type 0) (x : A) (xs : List A) → P x → All P xs → All P (insert_by x xs)
  unfolding insert_by
  insert_by-All P x [] h k = (h, tt)
  insert_by-All P x (y ∷ ys) h k = elim (Bool-cases (leb_ℤ (key x) (key y))) [
    | inl e ↦ rw e (h, k)
    | inr e ↦ rw e (k.0, insert_by-All P x ys h k.1)
  ]

  pub order_by-All : (P : A → Type 0) (xs : List A) → All P xs → All P (order_by xs)
  unfolding order_by
  order_by-All P [] h = tt
  order_by-All P (x ∷ xs) h = insert_by-All P x (order_by xs) h.0 (order_by-All P xs h.1)

  -- Each row is at most every later one.
  abbrev pub IsOrdered : List A → Type 0
  IsOrdered [] = Unit
  IsOrdered (x ∷ xs) = All (λ y. key x ≤ℤ key y) xs × IsOrdered xs

  insert_by-IsOrdered : (x : A) (xs : List A) → IsOrdered xs → IsOrdered (insert_by x xs)
  unfolding insert_by
  insert_by-IsOrdered x [] h = (tt, tt)
  insert_by-IsOrdered x (y ∷ ys) h = elim (Bool-cases (leb_ℤ (key x) (key y))) [
    | inl e ↦ rw e (
      (
        leb_ℤ→≤ℤ (key x) (key y) e,
        All-map _ _ (λ z g. ≤ℤ-trans (key x) (key y) (key z) e g) ys h.0,
      ),
      h,
    )
    | inr e ↦ rw e (
      insert_by-All (λ z. key y ≤ℤ key z) x ys (≤ℤ-of-not-leb_ℤ (key x) (key y) e) h.0,
      insert_by-IsOrdered x ys h.1,
    )
  ]

  pub order_by-IsOrdered : (xs : List A) → IsOrdered (order_by xs)
  unfolding order_by
  order_by-IsOrdered [] = tt
  order_by-IsOrdered (x ∷ xs) = insert_by-IsOrdered x (order_by xs) (order_by-IsOrdered xs)

  -- The first row in order: none if the table has none, else a row that no row precedes.
  pub head?-order_by-none : (xs : List A) → head? (order_by xs) ≡ none → xs ≡ []
  unfolding order_by
  head?-order_by-none [] h = refl
  head?-order_by-none (x ∷ xs) h = absurd (insert_by-ne-nil x (order_by xs) h)
    where
      insert_by-ne-nil : (y : A) (ys : List A) → ¬ (head? (insert_by y ys) ≡ none)
      insert_by-ne-nil y [] g = cc
      insert_by-ne-nil y (z ∷ zs) g = ground arith

  pub head?-order_by-All :
      (P : A → Type 0) (xs : List A) (a : A) → head? (order_by xs) ≡ some a → All P xs → P a
  head?-order_by-All P xs a h k = first (order_by xs) h (order_by-All P xs k)
    where
      first : (ys : List A) → head? ys ≡ some a → All P ys → P a
      first [] g w = cc
      first (y ∷ ys) g w = subst P (some_inj y a g) w.0
        where
          some_inj : (b c : A) → some b ≡ some c → b ≡ c
          some_inj b c r = cc

  All-insert_by : (P : A → Type 0) (x : A) (xs : List A) → All P (insert_by x xs) → P x × All P xs
  unfolding insert_by
  All-insert_by P x [] h = h
  All-insert_by P x (y ∷ ys) h = elim (Bool-cases (leb_ℤ (key x) (key y))) [
    | inl e ↦ (rw e at h)
    | inr e ↦
        let h' : P y × All P (insert_by x ys) = rw e at h in
        let (here, rest) = All-insert_by P x ys h'.1 in (here, (h'.0, rest))
  ]

  pub All-order_by : (P : A → Type 0) (xs : List A) → All P (order_by xs) → All P xs
  unfolding order_by
  All-order_by P [] h = tt
  All-order_by P (x ∷ xs) h =
      let (here, rest) = All-insert_by P x (order_by xs) h in (here, All-order_by P xs rest)

  -- The first row in order is at most every row of the table.
  pub head?-order_by-le :
      (xs : List A) (a : A) → head? (order_by xs) ≡ some a → All (λ y. key a ≤ℤ key y) xs
  head?-order_by-le xs a h = All-order_by _ xs (least (order_by xs) h (order_by-IsOrdered xs))
    where
      least : (ys : List A) → head? ys ≡ some a → IsOrdered ys → All (λ y. key a ≤ℤ key y) ys
      least [] g w = cc
      least (y ∷ ys) g w =
          subst (λ b. All (λ z. key b ≤ℤ key z) (y ∷ ys)) (some_inj y g) (le_self y, w.0)
        where
          some_inj : (b : A) → some b ≡ some a → b ≡ a
          some_inj b r = cc

          le_self : (b : A) → key b ≤ℤ key b
          le_self b = omega arith
