-- ===== src/Migrations/Pieces.antt =====
-- The reference for the splitting in src/shared/kysely/migration-runner.ts: an SQL file as a list of
-- pieces, as they are written down and as they make statements.
use pureplay_analytics_inges.Prelude.{
  ℕ, ◌≡◌, refl, sym, ap, ◌∙◌, Bool, true, false, ◌&&◌, ◌||◌, not, List, [], ◌∷◌, ◌++◌, Text, ◌==◌,
  head?, any, arith, Bool-cases, inl, inr, if◌then◌else◌,
}
use mathlib.Core.List.{append_assoc, append-nil}
use pureplay_analytics_inges.Migrations.{
  plain, dollar_quote, string_literal, comment, turn, is_next, pushed, scan, split_statements,
  newline,
}

pub data Piece : Type 0 where
  ordinary : ℕ → Piece
  lone : ℕ → ℕ → Piece
  quoted : Text → Piece
  dollars : Text → Piece
  remark : Text → Piece
  terminator : Piece

abbrev pub escaped : Text → Text
escaped [] = []
escaped (c ∷ t) = if c == 39 then 39 ∷ 39 ∷ escaped t else c ∷ escaped t

abbrev pub written : Piece → Text
written (ordinary c) = c ∷ []
written (lone c d) = c ∷ d ∷ []
written (quoted t) = 39 ∷ (escaped t ++ 39 ∷ [])
written (dollars t) = b'$' ∷ b'$' ∷ (t ++ b'$' ∷ b'$' ∷ [])
written (remark t) = b'-' ∷ b'-' ∷ (t ++ newline ∷ [])
written terminator = b';' ∷ []

abbrev pub file : List Piece → Text
file [] = []
file (p ∷ ps) = written p ++ file ps

-- Remarks are left out with the newline that ends them.
abbrev pub kept : Piece → Text
kept (remark t) = []
kept terminator = []
kept p = written p

abbrev pub statements : Text → List Piece → List Text
statements current [] = pushed current
statements current (terminator ∷ ps) = pushed current ++ statements [] ps
statements current (p ∷ ps) = statements (current ++ kept p) ps

abbrev pub is_ordinary : ℕ → Bool
is_ordinary c = not (c == b'$' || c == 39 || c == b'-' || c == b';')

abbrev pub has_pair : Text → Bool
has_pair [] = false
has_pair (c ∷ t) = (c == b'$' && is_next b'$' (head? t)) || has_pair t

-- What the pieces must be for the text to be read back as them.
abbrev pub AreWritten : List Piece → Type 0
AreWritten [] = Unit
AreWritten (ordinary c ∷ ps) = (is_ordinary c ≡ true) × AreWritten ps
AreWritten (lone c d ∷ ps) =
    ((c == b'$' || c == b'-') ≡ true) × (is_ordinary d ≡ true) × AreWritten ps
AreWritten (quoted t ∷ ps) = (is_next 39 (head? (file ps)) ≡ false) × AreWritten ps
AreWritten (dollars t ∷ ps) = (has_pair (t ++ b'$' ∷ []) ≡ false) × AreWritten ps
AreWritten (remark t ∷ ps) = (any (λ c. c == newline) t ≡ false) × AreWritten ps
AreWritten (terminator ∷ ps) = AreWritten ps

scan-ordinary :
    (c : ℕ) (cur rest : Text)
    → is_ordinary c ≡ true
    → scan plain cur (c ∷ rest) ≡ scan plain (cur ++ c ∷ []) rest
unfolding scan turn
scan-ordinary c cur rest h = ground arith

scan-lone :
    (c d : ℕ) (cur rest : Text)
    → (c == b'$' || c == b'-') ≡ true
    → is_ordinary d ≡ true
    → scan plain cur (c ∷ d ∷ rest) ≡ scan plain (cur ++ c ∷ []) (d ∷ rest)
unfolding scan turn
scan-lone c d cur rest h k = ground arith

scan-letter :
    (c : ℕ) (cur rest : Text)
    → (c == 39) ≡ false
    → scan string_literal cur (c ∷ rest) ≡ scan string_literal (cur ++ c ∷ []) rest
unfolding scan turn
scan-letter c cur rest h = ground arith

scan-escape :
    (cur rest : Text)
    → scan string_literal cur (39 ∷ 39 ∷ rest) ≡ scan string_literal (cur ++ 39 ∷ 39 ∷ []) rest
unfolding scan turn
scan-escape cur rest = ap (λ u. scan string_literal u rest) (append_assoc cur (39 ∷ []) (39 ∷ []))

scan-close :
    (cur rest : Text)
    → is_next 39 (head? rest) ≡ false
    → scan string_literal cur (39 ∷ rest) ≡ scan plain (cur ++ 39 ∷ []) rest
unfolding scan turn
scan-close cur rest h = rw h refl

-- A string literal from behind its first quote to its last, with what follows.
scan-quoted :
    (t cur rest : Text)
    → is_next 39 (head? rest) ≡ false
    → scan string_literal cur (escaped t ++ 39 ∷ rest)
      ≡ scan plain (cur ++ (escaped t ++ 39 ∷ [])) rest
scan-quoted [] cur rest h = scan-close cur rest h
scan-quoted (c ∷ t) cur rest h = elim (Bool-cases (c == 39)) [
  | inl e ↦ rw e (
      scan-escape cur (escaped t ++ 39 ∷ rest)
      ∙ scan-quoted t (cur ++ 39 ∷ 39 ∷ []) rest h
      ∙ ap (λ u. scan plain u rest) (append_assoc cur (39 ∷ 39 ∷ []) (escaped t ++ 39 ∷ [])))
  | inr e ↦ rw e (
      scan-letter c cur (escaped t ++ 39 ∷ rest) e
      ∙ scan-quoted t (cur ++ c ∷ []) rest h
      ∙ ap (λ u. scan plain u rest) (append_assoc cur (c ∷ []) (escaped t ++ 39 ∷ [])))
]

scan-block_letter :
    (c : ℕ) (cur rest : Text)
    → (c == b'$' && is_next b'$' (head? rest)) ≡ false
    → scan dollar_quote cur (c ∷ rest) ≡ scan dollar_quote (cur ++ c ∷ []) rest
unfolding scan turn
scan-block_letter c cur rest h = rw h refl

head?-before : (t : Text) (d : ℕ) (rest : Text) → head? (t ++ d ∷ rest) ≡ head? (t ++ d ∷ [])
head?-before [] d rest = refl
head?-before (c ∷ t) d rest = refl

-- A block from behind its first pair of dollars to its last.
scan-dollars :
    (t cur rest : Text)
    → has_pair (t ++ b'$' ∷ []) ≡ false
    → scan dollar_quote cur (t ++ b'$' ∷ b'$' ∷ rest)
      ≡ scan plain (cur ++ (t ++ b'$' ∷ b'$' ∷ [])) rest
scan-dollars [] cur rest h = unfold scan turn in refl
scan-dollars (c ∷ t) cur rest h =
    let (here, later) =
      or-eq-false (c == b'$' && is_next b'$' (head? (t ++ b'$' ∷ []))) (has_pair (t ++ b'$' ∷ []))
        h in
    scan-block_letter c cur (t ++ b'$' ∷ b'$' ∷ rest)
      (ap (λ o. c == b'$' && is_next b'$' o) (head?-before t b'$' (b'$' ∷ rest)) ∙ here)
    ∙ scan-dollars t (cur ++ c ∷ []) rest later
    ∙ ap (λ u. scan plain u rest) (append_assoc cur (c ∷ []) (t ++ b'$' ∷ b'$' ∷ []))
  where
    or-eq-false : (a b : Bool) → (a || b) ≡ false → (a ≡ false) × (b ≡ false)
    or-eq-false a b g = ground arith

scan-remark :
    (t cur rest : Text)
    → any (λ c. c == newline) t ≡ false
    → scan comment cur (t ++ newline ∷ rest) ≡ scan plain cur rest
unfolding scan turn
scan-remark [] cur rest h = ground arith
scan-remark (c ∷ t) cur rest h = ground (arith, scan-remark t cur rest)

scan-terminator :
    (cur rest : Text) → scan plain cur (b';' ∷ rest) ≡ pushed cur ++ scan plain [] rest
unfolding scan turn
scan-terminator cur rest = refl

scan-open_quote :
    (cur rest : Text) → scan plain cur (39 ∷ rest) ≡ scan string_literal (cur ++ 39 ∷ []) rest
unfolding scan turn
scan-open_quote cur rest = refl

scan-open_block :
    (cur rest : Text)
    → scan plain cur (b'$' ∷ b'$' ∷ rest) ≡ scan dollar_quote (cur ++ b'$' ∷ b'$' ∷ []) rest
unfolding scan turn
scan-open_block cur rest = refl

scan-open_remark : (cur rest : Text) → scan plain cur (b'-' ∷ b'-' ∷ rest) ≡ scan comment cur rest
unfolding scan turn
scan-open_remark cur rest = refl

scan-file :
    (cur : Text) (ps : List Piece) → AreWritten ps → scan plain cur (file ps) ≡ statements cur ps
scan-file cur [] h = unfold scan in refl
scan-file cur (ordinary c ∷ ps) (h, hs) =
    scan-ordinary c cur (file ps) h ∙ scan-file (cur ++ c ∷ []) ps hs
scan-file cur (lone c d ∷ ps) (h, k, hs) =
    scan-lone c d cur (file ps) h k
    ∙ scan-ordinary d (cur ++ c ∷ []) (file ps) k
    ∙ ap (λ u. scan plain u (file ps)) (append_assoc cur (c ∷ []) (d ∷ []))
    ∙ scan-file (cur ++ c ∷ d ∷ []) ps hs
scan-file cur (quoted t ∷ ps) (h, hs) =
    ap (λ u. scan plain cur (39 ∷ u)) (append_assoc (escaped t) (39 ∷ []) (file ps))
    ∙ scan-open_quote cur (escaped t ++ 39 ∷ file ps)
    ∙ scan-quoted t (cur ++ 39 ∷ []) (file ps) h
    ∙ ap (λ u. scan plain u (file ps)) (append_assoc cur (39 ∷ []) (escaped t ++ 39 ∷ []))
    ∙ scan-file (cur ++ written (quoted t)) ps hs
scan-file cur (dollars t ∷ ps) (h, hs) =
    ap (λ u. scan plain cur (b'$' ∷ b'$' ∷ u)) (append_assoc t (b'$' ∷ b'$' ∷ []) (file ps))
    ∙ scan-open_block cur (t ++ b'$' ∷ b'$' ∷ file ps)
    ∙ scan-dollars t (cur ++ b'$' ∷ b'$' ∷ []) (file ps) h
    ∙ ap (λ u. scan plain u (file ps)) (append_assoc cur (b'$' ∷ b'$' ∷ []) (t ++ b'$' ∷ b'$' ∷ []))
    ∙ scan-file (cur ++ written (dollars t)) ps hs
scan-file cur (remark t ∷ ps) (h, hs) =
    ap (λ u. scan plain cur (b'-' ∷ b'-' ∷ u)) (append_assoc t (newline ∷ []) (file ps))
    ∙ scan-open_remark cur (t ++ newline ∷ file ps)
    ∙ scan-remark t cur (file ps) h
    ∙ scan-file cur ps hs
    ∙ ap (λ u. statements u ps) (sym (append-nil cur))
scan-file cur (terminator ∷ ps) hs =
    scan-terminator cur (file ps) ∙ ap (λ u. pushed cur ++ u) (scan-file [] ps hs)

-- On the text of a list of pieces (characters that open nothing, a lone '$' or '-' with such a
-- character behind it, string literals with their quotes doubled, dollar-quoted blocks,
-- comments with their newline, semicolons) `splitStatements` gives the trimmed texts between
-- the semicolons that are pieces, without the empty ones, with literals and blocks whole and
-- comments left out with their newline, if no literal is followed by a quote, no block has two
-- dollars in it and no comment a newline.
pub split_statements-file :
    (ps : List Piece) → AreWritten ps → split_statements (file ps) ≡ statements [] ps
unfolding split_statements
split_statements-file ps h = scan-file [] ps h
