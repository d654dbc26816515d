-- ===== src/Stats/Partition.antt =====
-- src/stats/stats.service.ts: the entries of the Map of rows by club.
use mathlib.Core.Path.{subst}
use mathlib.Core.List.{append-nil, append_assoc}
use pureplay_analytics_inges.Prelude.{
  ◌≡◌, refl, sym, ap, ◌∙◌, inl, inr, Bool, true, false, ◌||◌, List, [], ◌∷◌, ◌++◌, Text, text_eq,
  text_eq_refl, text_eq_iff, text_eq_comm, keep, any, All, All-append, All-map, arith, Bool-cases,
  if◌then◌else◌,
}
use pureplay_analytics_inges.Domain.Shot.{NormalisedShot}
use pureplay_analytics_inges.Stats.Groups.{Group, club_of_row, push_row, group_rows}

module _ {N : Type 0} where
  -- The rows of a club.
  abbrev pub rows_of : Text → List (NormalisedShot N) → List (NormalisedShot N)
  rows_of club rows = keep (λ row. text_eq club (club_of_row row)) rows

  abbrev pub has_group : Text → List (Group N) → Bool
  has_group club groups = any (λ (c, rows). text_eq c club) groups

  abbrev pub AreApart : List (Group N) → Type 0
  AreApart [] = Unit
  AreApart (g ∷ groups) = All (λ h. text_eq g.0 h.0 ≡ false) groups × AreApart groups

  -- The groups of the rows so far.
  pub record AreGroups (done : List (NormalisedShot N)) (groups : List (Group N)) : Type 0 where
    pub apart : AreApart groups
    pub filled : All (λ g. g.1 ≡ rows_of g.0 done) groups
    pub complete : All (λ row. has_group (club_of_row row) groups ≡ true) done

  push_row-All :
      (Q : Text → Type 0) (row : NormalisedShot N) (groups : List (Group N))
      → Q (club_of_row row)
      → All (λ g. Q g.0) groups
      → All (λ g. Q g.0) (push_row row groups)
  unfolding push_row
  push_row-All Q row [] q h = (q, tt)
  push_row-All Q row ((club, rows) ∷ groups) q h =
      elim (Bool-cases (text_eq club (club_of_row row))) [
        | inl e ↦ rw e (h.0, h.1)
        | inr e ↦ rw e (h.0, push_row-All Q row groups q h.1)
      ]

  push_row-AreApart :
      (row : NormalisedShot N) (groups : List (Group N))
      → AreApart groups
      → AreApart (push_row row groups)
  unfolding push_row
  push_row-AreApart row [] h = (tt, tt)
  push_row-AreApart row ((club, rows) ∷ groups) h =
      elim (Bool-cases (text_eq club (club_of_row row))) [
        | inl e ↦ rw e (h.0, h.1)
        | inr e ↦ rw e (
          push_row-All (λ c. text_eq club c ≡ false) row groups e h.0,
          push_row-AreApart row groups h.1,
        )
      ]

  has_group-push_row :
      (club : Text) (row : NormalisedShot N) (groups : List (Group N))
      → has_group club (push_row row groups)
        ≡ (has_group club groups || text_eq (club_of_row row) club)
  unfolding push_row
  has_group-push_row club row [] = ground arith
  has_group-push_row club row ((c, rows) ∷ groups) =
      elim (Bool-cases (text_eq c (club_of_row row))) [
        | inl e ↦
            rw e (ground (arith, ap (λ t. text_eq t club) ((text_eq_iff c (club_of_row row)).0 e)))
        | inr e ↦ rw e (ground (arith, has_group-push_row club row groups))
      ]

  rows_of-append :
      (club : Text) (done : List (NormalisedShot N)) (row : NormalisedShot N)
      → rows_of club (done ++ row ∷ [])
        ≡ rows_of club done ++ (if text_eq club (club_of_row row) then row ∷ [] else [])
  rows_of-append club [] row = elim (Bool-cases (text_eq club (club_of_row row))) [
    | inl e ↦ rw e refl
    | inr e ↦ rw e refl
  ]
  rows_of-append club (x ∷ done) row = elim (Bool-cases (text_eq club (club_of_row x))) [
    | inl e ↦ rw e (ap (λ r. x ∷ r) (rows_of-append club done row))
    | inr e ↦ rw e (rows_of-append club done row)
  ]

  other_rows :
      (club : Text) (done : List (NormalisedShot N)) (row : NormalisedShot N)
      → text_eq club (club_of_row row) ≡ false
      → rows_of club done ≡ rows_of club (done ++ row ∷ [])
  other_rows club done row h =
      sym (rows_of-append club done row ∙ rw h (append-nil (rows_of club done)))

  own_rows :
      (club : Text) (done : List (NormalisedShot N)) (row : NormalisedShot N)
      → text_eq club (club_of_row row) ≡ true
      → rows_of club done ++ row ∷ [] ≡ rows_of club (done ++ row ∷ [])
  own_rows club done row h = sym (rows_of-append club done row ∙ rw h refl)

  others_filled :
      (club : Text) (done : List (NormalisedShot N)) (row : NormalisedShot N)
      (groups : List (Group N))
      → club ≡ club_of_row row
      → All (λ h. text_eq club h.0 ≡ false) groups
      → All (λ g. g.1 ≡ rows_of g.0 done) groups
      → All (λ g. g.1 ≡ rows_of g.0 (done ++ row ∷ [])) groups
  others_filled club done row [] e a f = tt
  others_filled club done row (g ∷ groups) e a f = (
    f.0 ∙ other_rows g.0 done row (ap (text_eq g.0) (sym e) ∙ text_eq_comm g.0 club ∙ a.0),
    others_filled club done row groups e a.1 f.1,
  )

  push_row-filled :
      (done : List (NormalisedShot N)) (row : NormalisedShot N) (groups : List (Group N))
      → AreApart groups
      → All (λ g. g.1 ≡ rows_of g.0 done) groups
      → (has_group (club_of_row row) groups ≡ false → rows_of (club_of_row row) done ≡ [])
      → All (λ g. g.1 ≡ rows_of g.0 (done ++ row ∷ [])) (push_row row groups)
  unfolding push_row
  push_row-filled done row [] a f absent = (
    ap (λ r. r ++ row ∷ []) (sym (absent refl))
        ∙ own_rows (club_of_row row) done row (text_eq_refl (club_of_row row)),
    tt,
  )
  push_row-filled done row ((club, rows) ∷ groups) a f absent =
      elim (Bool-cases (text_eq club (club_of_row row))) [
        | inl e ↦ rw e (
          ap (λ r. r ++ row ∷ []) f.0 ∙ own_rows club done row e,
          others_filled club done row groups ((text_eq_iff club (club_of_row row)).0 e) a.0 f.1,
        )
        | inr e ↦ rw e (
          f.0 ∙ other_rows club done row e,
          push_row-filled done row groups a.1 f.1 (λ h. absent (ground arith)),
        )
      ]

  without_group :
      (club : Text) (done : List (NormalisedShot N)) (groups : List (Group N))
      → All (λ row. has_group (club_of_row row) groups ≡ true) done
      → has_group club groups ≡ false
      → rows_of club done ≡ []
  without_group club [] groups h k = refl
  without_group club (x ∷ done) groups h k = elim (Bool-cases (text_eq club (club_of_row x))) [
    | inl e ↦ absurd (
        true-ne-false (
          sym h.0
          ∙ ap (λ c. has_group c groups) (sym ((text_eq_iff club (club_of_row x)).0 e))
          ∙ k))
    | inr e ↦ rw e (without_group club done groups h.1 k)
  ]
    where
      true-ne-false : true ≡ false → ⊥
      true-ne-false q = cc

  push_row-AreGroups :
      (done : List (NormalisedShot N)) (row : NormalisedShot N) (groups : List (Group N))
      → AreGroups done groups
      → AreGroups (done ++ row ∷ []) (push_row row groups)
  push_row-AreGroups done row groups h = record {
    apart = push_row-AreApart row groups h.apart;
    filled =
        push_row-filled done row groups h.apart h.filled
          (without_group (club_of_row row) done groups h.complete);
    complete =
        All-append _ done (row ∷ [])
          (All-map _ _ (λ r k. has_group-push_row (club_of_row r) row groups ∙ rw k refl) done
            h.complete)
          (
            has_group-push_row (club_of_row row) row groups
                ∙ ground (arith, text_eq_refl (club_of_row row)),
            tt,
          );
  }

  pub group_rows-AreGroups :
      (done rows : List (NormalisedShot N)) (groups : List (Group N))
      → AreGroups done groups
      → AreGroups (done ++ rows) (group_rows rows groups)
  unfolding group_rows
  group_rows-AreGroups done [] groups h = subst (λ d. AreGroups d groups) (sym (append-nil done)) h
  group_rows-AreGroups done (row ∷ rows) groups h =
      subst (λ d. AreGroups d (group_rows rows (push_row row groups)))
        (append_assoc done (row ∷ []) rows)
        (group_rows-AreGroups (done ++ row ∷ []) rows (push_row row groups)
          (push_row-AreGroups done row groups h))
