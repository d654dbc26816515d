-- ===== src/Domain/Club/Spelling.antt =====
-- The spellings that `normaliseClub` of src/shared/domain/club-code.ts is given.
use pureplay_analytics_inges.Prelude.{
  ℕ, ◌≡◌, refl, ◌∙◌, false, some, List, [], ◌∷◌, ◌++◌, map, Text, codes, text_eq, text_eq_iff,
  arith, inl, inr, Bool-cases, All, is_empty,
}
use mathlib.Core.Path.{subst}
use pureplay_analytics_inges.Platform.{Platform, IsStandard, IsAscii, ascii_upper, ascii_lower}
use pureplay_analytics_inges.Domain.Club.{
  ClubCode, club_text, code, inherited, is_space, trim, club_of, inverted_iron, alias_in, alias_map,
  alias_value, looked_up, normalise_club,
}
use pureplay_analytics_inges.Domain.Club.Trim.{IsBlank, trim-pad, trim-map, trim-All}

ascii_upper-is_space : (c : ℕ) → is_space (ascii_upper c) ≡ is_space c
ascii_upper-is_space c = ground arith

ascii_lower-is_space : (c : ℕ) → is_space (ascii_lower c) ≡ is_space c
ascii_lower-is_space c = ground arith

map-upper-lower : (s : Text) → map ascii_upper (map ascii_lower s) ≡ map ascii_upper s
map-upper-lower [] = refl
map-upper-lower (c ∷ s) = cc (one c, map-upper-lower s)
  where
    one : (x : ℕ) → ascii_upper (ascii_lower x) ≡ ascii_upper x
    one x = ground arith

module _ ⦃p : Platform⦄ where
  normalise_club-ascii :
      (s : Text)
      → IsStandard p
      → IsAscii s
      → is_empty s ≡ false
      → normalise_club s ≡ looked_up (trim (map ascii_upper s)) (trim (map ascii_lower s))
  unfolding normalise_club
  normalise_club-ascii s std h e =
      rw (e, std.upper_ascii (trim s) (trim-All _ s h), std.lower_ascii (trim s) (trim-All _ s h))
        (cc (
          trim-map ascii_upper ascii_upper-is_space s,
          trim-map ascii_lower ascii_lower-is_space s,
        ))

looked_up_code : (c : ClubCode) (lower : Text) → looked_up (trim (club_text c)) lower ≡ code c
unfolding looked_up trim club_of
looked_up_code ClubCode.dr lower = refl
looked_up_code _ lower = refl

abbrev IsListed : Text × ClubCode → Type 0
IsListed e = looked_up (trim (map ascii_upper e.0)) (trim e.0) ≡ code e.1

aliases-IsListed : All IsListed alias_map
unfolding looked_up trim club_of inverted_iron alias_value
aliases-IsListed = (
  refl,
  (
    refl,
    (
      refl,
      (
        refl,
        (
          refl,
          (
            refl,
            (
              refl,
              (
                refl,
                (
                  refl,
                  (
                    refl,
                    (
                      refl,
                      (
                        refl,
                        (
                          refl,
                          (
                            refl,
                            (
                              refl,
                              (
                                refl,
                                (
                                  refl,
                                  (
                                    refl,
                                    (
                                      refl,
                                      (
                                        refl,
                                        (
                                          refl,
                                          (
                                            refl,
                                            (
                                              refl,
                                              (
                                                refl,
                                                (
                                                  refl,
                                                  (
                                                    refl,
                                                    (
                                                      refl,
                                                      (
                                                        refl,
                                                        (
                                                          refl,
                                                          (
                                                            refl,
                                                            (
                                                            refl,
                                                            (
                                                            refl,
                                                            (
                                                            refl,
                                                            (
                                                            refl,
                                                            (
                                                            refl,
                                                            (
                                                            refl,
                                                            (
                                                            refl,
                                                            (refl, (refl, (refl, (refl, tt)))),
                                                            ),
                                                            ),
                                                            ),
                                                            ),
                                                            ),
                                                            ),
                                                            ),
                                                          ),
                                                        ),
                                                      ),
                                                    ),
                                                  ),
                                                ),
                                              ),
                                            ),
                                          ),
                                        ),
                                      ),
                                    ),
                                  ),
                                ),
                              ),
                            ),
                          ),
                        ),
                      ),
                    ),
                  ),
                ),
              ),
            ),
          ),
        ),
      ),
    ),
  ),
)

alias_in-All :
    (P : Text × ClubCode → Type 0) (k : Text) (c : ClubCode) (m : List (Text × ClubCode))
    → alias_in k m ≡ some c
    → All P m
    → P (k, c)
alias_in-All P k c [] e h = cc
alias_in-All P k c ((j, d) ∷ m) e h = elim (Bool-cases (text_eq j k)) [
  | inl same ↦
      let same_code : d ≡ c = ground arith in
      subst (λ x. P (x, c)) ((text_eq_iff j k).0 same) (subst (λ x. P (j, x)) same_code h.0)
  | inr other ↦ alias_in-All P k c m (rw other at e) h.1
]

looked_up_constructor :
    looked_up (trim (map ascii_upper (codes "constructor"))) (trim (codes "constructor"))
    ≡ inherited (codes "constructor")
unfolding looked_up trim club_of inverted_iron alias_value
looked_up_constructor = refl

IsBlank-append-is_empty :
    (pre s post : Text) → is_empty s ≡ false → is_empty (pre ++ (s ++ post)) ≡ false
IsBlank-append-is_empty [] [] post e = cc
IsBlank-append-is_empty [] (c ∷ s) post e = refl
IsBlank-append-is_empty (c ∷ pre) s post e = refl

module _ ⦃p : Platform⦄ where
  -- White space on either side of a spelling that is not empty does not change its club.
  pub normalise_club-pad :
      (pre s post : Text)
      → is_empty s ≡ false
      → IsBlank pre
      → IsBlank post
      → normalise_club (pre ++ (s ++ post)) ≡ normalise_club s
  unfolding normalise_club
  normalise_club-pad pre s post e h k =
      rw (IsBlank-append-is_empty pre s post e, e, trim-pad pre s post h k)

  -- An ASCII text, not empty, that is a club code in some letter case is normalised to that
  -- code, on a platform whose case mapping is standard.
  pub normalise_club-club_text :
      (c : ClubCode) (s : Text)
      → IsStandard p
      → IsAscii s
      → is_empty s ≡ false
      → map ascii_upper s ≡ club_text c
      → normalise_club s ≡ code c
  normalise_club-club_text c s std h e same =
      normalise_club-ascii s std h e ∙ rw same (looked_up_code c (trim (map ascii_lower s)))

  -- An ASCII text, not empty, that is an alias of the table in some letter case is normalised
  -- to the alias's club, on a platform whose case mapping is standard.
  pub normalise_club-alias :
      (k s : Text) (c : ClubCode)
      → IsStandard p
      → IsAscii s
      → is_empty s ≡ false
      → map ascii_lower s ≡ k
      → alias_in k alias_map ≡ some c
      → normalise_club s ≡ code c
  normalise_club-alias k s c std h e same listed =
      normalise_club-ascii s std h e
      ∙ rw (← map-upper-lower s, same) (alias_in-All IsListed k c alias_map listed aliases-IsListed)

  -- An ASCII text that is "constructor" in some letter case is normalised to the member of
  -- `Object.prototype` with that name and not to a club code, on a platform whose case mapping
  -- is standard.
  pub normalise_club-constructor :
      (s : Text)
      → IsStandard p
      → IsAscii s
      → is_empty s ≡ false
      → map ascii_lower s ≡ codes "constructor"
      → normalise_club s ≡ inherited (codes "constructor")
  normalise_club-constructor s std h e same =
      normalise_club-ascii s std h e ∙ rw (← map-upper-lower s, same) looked_up_constructor
