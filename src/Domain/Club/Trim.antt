-- ===== src/Domain/Club/Trim.antt =====
-- `String.prototype.trim`, as src/shared/domain/club-code.ts calls it.
use pureplay_analytics_inges.Prelude.{
  ℕ, ◌≡◌, refl, ap, true, [], ◌∷◌, ◌++◌, map, Text, inl, inr, Bool-cases, All, ◌∙◌,
}
use pureplay_analytics_inges.Domain.Club.{is_space, trim_start, drop_if_blank, trim_end, trim}

abbrev pub IsBlank : Text → Type 0
IsBlank = All (λ c. is_space c ≡ true)

trim_start-blank : (pre s : Text) → IsBlank pre → trim_start (pre ++ s) ≡ trim_start s
trim_start-blank [] s h = refl
trim_start-blank (c ∷ pre) s h = rw h.0 (trim_start-blank pre s h.1)

trim_end-blank : (post : Text) → IsBlank post → trim_end post ≡ []
trim_end-blank [] h = refl
trim_end-blank (c ∷ post) h = rw (trim_end-blank post h.1, h.0)

trim_end-append : (s post : Text) → IsBlank post → trim_end (s ++ post) ≡ trim_end s
trim_end-append [] post h = trim_end-blank post h
trim_end-append (c ∷ s) post h = ap (drop_if_blank c) (trim_end-append s post h)

trim-append : (s post : Text) → IsBlank post → trim (s ++ post) ≡ trim s
unfolding trim
trim-append [] post h = ap trim_end (trim_start-post post h)
  where
    trim_start-post : (t : Text) → IsBlank t → trim_start t ≡ []
    trim_start-post [] k = refl
    trim_start-post (c ∷ t) k = rw k.0 (trim_start-post t k.1)
trim-append (c ∷ s) post h = elim (Bool-cases (is_space c)) [
  | inl e ↦ rw e (trim-append s post h)
  | inr e ↦ rw e (trim_end-append (c ∷ s) post h)
]

pub trim-pad : (pre s post : Text) → IsBlank pre → IsBlank post → trim (pre ++ (s ++ post)) ≡ trim s
unfolding trim
trim-pad pre s post h k = ap trim_end (trim_start-blank pre (s ++ post) h) ∙ trim-append s post k

-- A change of characters that keeps white space where it is commutes with trimming.
module _ (f : ℕ → ℕ) (same : (c : ℕ) → is_space (f c) ≡ is_space c) where
  trim_start-map : (s : Text) → trim_start (map f s) ≡ map f (trim_start s)
  trim_start-map [] = refl
  trim_start-map (c ∷ s) = elim (Bool-cases (is_space c)) [
    | inl e ↦ rw (same c, e) (trim_start-map s)
    | inr e ↦ rw (same c, e)
  ]

  drop_if_blank-map : (c : ℕ) (s : Text) → drop_if_blank (f c) (map f s) ≡ map f (drop_if_blank c s)
  drop_if_blank-map c [] = elim (Bool-cases (is_space c)) [
    | inl e ↦ rw (same c, e)
    | inr e ↦ rw (same c, e)
  ]
  drop_if_blank-map c (d ∷ s) = refl

  trim_end-map : (s : Text) → trim_end (map f s) ≡ map f (trim_end s)
  trim_end-map [] = refl
  trim_end-map (c ∷ s) =
      ap (drop_if_blank (f c)) (trim_end-map s) ∙ drop_if_blank-map c (trim_end s)

  pub trim-map : (s : Text) → trim (map f s) ≡ map f (trim s)
  unfolding trim
  trim-map s = ap trim_end (trim_start-map s) ∙ trim_end-map (trim_start s)

-- What holds of every character still does after trimming.
module _ (P : ℕ → Type 0) where
  trim_start-All : (s : Text) → All P s → All P (trim_start s)
  trim_start-All [] h = tt
  trim_start-All (c ∷ s) h = elim (Bool-cases (is_space c)) [
    | inl e ↦ rw e (trim_start-All s h.1)
    | inr e ↦ rw e h
  ]

  drop_if_blank-All : (c : ℕ) (s : Text) → P c → All P s → All P (drop_if_blank c s)
  drop_if_blank-All c [] h k = elim (Bool-cases (is_space c)) [
    | inl e ↦ rw e tt
    | inr e ↦ rw e (h, tt)
  ]
  drop_if_blank-All c (d ∷ s) h k = (h, k)

  trim_end-All : (s : Text) → All P s → All P (trim_end s)
  trim_end-All [] h = tt
  trim_end-All (c ∷ s) h = drop_if_blank-All c (trim_end s) h.0 (trim_end-All s h.1)

  pub trim-All : (s : Text) → All P s → All P (trim s)
  unfolding trim
  trim-All s h = trim_end-All (trim_start s) (trim_start-All s h)
