-- ===== src/Database/Sorted.antt =====
-- `ORDER BY` with several keys, by the test whether a row stands before another.
use pureplay_analytics_inges.Prelude.{
  keep-All_of, All-middle, ◌≡◌, refl, ap, ◌∙◌, Bool, true, false, ◌||◌, List, [], ◌∷◌, ◌++◌,
  if◌then◌else◌, arith, All, All-map, keep, Bool-cases, inl, inr,
}

module _ {A : Type 0} (before : A → A → Bool) where
  unfoldable pub insert_row : A → List A → List A
  insert_row x [] = x ∷ []
  insert_row x (y ∷ ys) = if before x y then x ∷ y ∷ ys else y ∷ insert_row x ys

  unfoldable pub sort_rows : List A → List A
  unfolding insert_row
  sort_rows [] = []
  sort_rows (x ∷ xs) = insert_row x (sort_rows xs)

  -- Each row stands before every later one.
  abbrev pub IsSorted : List A → Type 0
  IsSorted [] = Unit
  IsSorted (x ∷ xs) = All (λ y. before x y ≡ true) xs × IsSorted xs

  abbrev pub IsComparable : A → List A → Type 0
  IsComparable x = All (λ y. (before x y || before y x) ≡ true)

  -- No two rows stand at the same place.
  abbrev pub AreComparable : List A → Type 0
  AreComparable [] = Unit
  AreComparable (x ∷ xs) = IsComparable x xs × AreComparable xs

  insert_row-All : (P : A → Type 0) (x : A) (xs : List A) → P x → All P xs → All P (insert_row x xs)
  unfolding insert_row
  insert_row-All P x [] h k = (h, tt)
  insert_row-All P x (y ∷ ys) h k = elim (Bool-cases (before x y)) [
    | inl e ↦ rw e (h, k)
    | inr e ↦ rw e (k.0, insert_row-All P x ys h k.1)
  ]

  pub sort_rows-All : (P : A → Type 0) (xs : List A) → All P xs → All P (sort_rows xs)
  unfolding sort_rows
  sort_rows-All P [] h = tt
  sort_rows-All P (x ∷ xs) h = insert_row-All P x (sort_rows xs) h.0 (sort_rows-All P xs h.1)

  IsComparable-keep :
      (p : A → Bool) (x : A) (xs : List A) → IsComparable x xs → IsComparable x (keep p xs)
  IsComparable-keep p x [] h = tt
  IsComparable-keep p x (y ∷ ys) h = elim (Bool-cases (p y)) [
    | inl e ↦ rw e (h.0, IsComparable-keep p x ys h.1)
    | inr e ↦ rw e (IsComparable-keep p x ys h.1)
  ]

  pub AreComparable-keep :
      (p : A → Bool) (xs : List A) → AreComparable xs → AreComparable (keep p xs)
  AreComparable-keep p [] h = tt
  AreComparable-keep p (x ∷ xs) h = elim (Bool-cases (p x)) [
    | inl e ↦ rw e (IsComparable-keep p x xs h.0, AreComparable-keep p xs h.1)
    | inr e ↦ rw e (AreComparable-keep p xs h.1)
  ]

-- The order of the rows is strict.
pub record IsStrict {A : Type 0} (before : A → A → Bool) : Type 0 where
  pub before_irreflexive : (x : A) → before x x ≡ false
  pub before_transitive : (x y z : A) → before x y ≡ true → before y z ≡ true → before x z ≡ true

module _ {A : Type 0} (before : A → A → Bool) (strict : IsStrict before) where
  insert_row-IsSorted :
      (x : A) (ys : List A)
      → IsSorted before ys
      → IsComparable before x ys
      → IsSorted before (insert_row before x ys)
  unfolding insert_row
  insert_row-IsSorted x [] h k = (tt, tt)
  insert_row-IsSorted x (y ∷ ys) h k = elim (Bool-cases (before x y)) [
    | inl e ↦ rw e (
      (
        e,
        All-map (λ z. before y z ≡ true) (λ z. before x z ≡ true)
            (λ z g. strict.before_transitive x y z e g) ys h.0,
      ),
      h,
    )
    | inr e ↦ rw e (
      insert_row-All before (λ z. before y z ≡ true) x ys (ground arith) h.0,
      insert_row-IsSorted x ys h.1 k.1,
    )
  ]

  pub sort_rows-IsSorted :
      (xs : List A) → AreComparable before xs → IsSorted before (sort_rows before xs)
  unfolding sort_rows
  sort_rows-IsSorted [] h = tt
  sort_rows-IsSorted (x ∷ xs) h =
      insert_row-IsSorted x (sort_rows before xs) (sort_rows-IsSorted xs h.1)
        (sort_rows-All before (λ y. (before x y || before y x) ≡ true) xs h.0)

  insert_row-first :
      (x : A) (ys : List A) → All (λ y. before x y ≡ true) ys → insert_row before x ys ≡ x ∷ ys
  unfolding insert_row
  insert_row-first x [] h = refl
  insert_row-first x (y ∷ ys) h = rw (h.0) refl

  keep-insert_row :
      (p : A → Bool) (x : A) (ys : List A)
      → IsSorted before ys
      → keep p (insert_row before x ys)
        ≡ (if p x then insert_row before x (keep p ys) else keep p ys)
  unfolding insert_row
  keep-insert_row p x [] h = refl
  keep-insert_row p x (y ∷ ys) h = elim (Bool-cases (before x y)) [
    | inl e ↦
        let behind : All (λ z. before x z ≡ true) (y ∷ ys) =
          (e, All-map _ _ (λ z g. strict.before_transitive x y z e g) ys h.0) in
        ground (arith, insert_row-first x (keep p (y ∷ ys)) (keep-All_of _ p (y ∷ ys) behind))
    | inr e ↦ ground (arith, keep-insert_row p x ys h.1)
  ]

  -- The rows that pass a test, in order: it is the same to choose first or to order first.
  pub keep-sort_rows :
      (p : A → Bool) (xs : List A)
      → AreComparable before xs
      → keep p (sort_rows before xs) ≡ sort_rows before (keep p xs)
  unfolding sort_rows
  keep-sort_rows p [] h = refl
  keep-sort_rows p (x ∷ xs) h =
      keep-insert_row p x (sort_rows before xs) (sort_rows-IsSorted xs h.1)
      ∙ elim (Bool-cases (p x)) [
        | inl e ↦ rw e (ap (insert_row before x) (keep-sort_rows p xs h.1))
        | inr e ↦ rw e (keep-sort_rows p xs h.1)
      ]

  keep_everything : (p : A → Bool) (xs : List A) → All (λ y. p y ≡ true) xs → keep p xs ≡ xs
  keep_everything p [] h = refl
  keep_everything p (x ∷ xs) h = rw (h.0, keep_everything p xs h.1) refl

  asymmetric : (x y : A) → before x y ≡ true → before y x ≡ false
  asymmetric x y h = ground (arith, strict.before_irreflexive x, strict.before_transitive x y x h)

  -- The rows behind one row are those that it stands before.
  pub keep-behind :
      (front : List A) (x : A) (rest : List A)
      → IsSorted before (front ++ x ∷ rest)
      → keep (before x) (front ++ x ∷ rest) ≡ rest
  keep-behind [] x rest h = rw (strict.before_irreflexive x) (keep_everything (before x) rest h.0)
  keep-behind (y ∷ front) x rest h =
      rw (asymmetric y x (All-middle (λ z. before y z ≡ true) front x rest h.0))
        (keep-behind front x rest h.1)
