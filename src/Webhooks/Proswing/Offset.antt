-- ===== src/Webhooks/Proswing/Offset.antt =====
-- `parseTzOffset` of src/webhooks/proswing/proswing.parser.ts.
use pureplay_analytics_inges.Prelude.{
  ℕ, ◌+◌, ◌-◌, ◌*◌, ◌<◌, ◌≡◌, refl, List, [], ◌∷◌, ◌++◌, Text, length, drop, length-append, pos,
  ◌-ℤ◌, arith,
}
use pureplay_analytics_inges.Webhooks.Proswing.{tz_offset_min, offset_of_tail}

drop-append : {A : Type 0} (xs ys : List A) → drop (length xs) (xs ++ ys) ≡ ys
drop-append [] ys = refl
drop-append (x ∷ xs) ys = drop-append xs ys

-- `hh:mm` for less than 100 of each.
abbrev pub clock : ℕ → ℕ → ℕ → ℕ → Text
clock a b c d = (b'0' + a) ∷ (b'0' + b) ∷ b':' ∷ (b'0' + c) ∷ (b'0' + d) ∷ []

tail_of :
    (stem : Text) (sign a b c d : ℕ)
    → tz_offset_min (stem ++ sign ∷ clock a b c d) ≡ offset_of_tail (sign ∷ clock a b c d)
unfolding tz_offset_min
tail_of stem sign a b c d =
    let n = length-append stem (sign ∷ clock a b c d) in
    let k : length (stem ++ sign ∷ clock a b c d) - 6 ≡ length stem = omega (arith, n) in
    rw (k, drop-append stem (sign ∷ clock a b c d)) refl

-- The offset of a text that ends in "+hh:mm", for any four digits, is 60 hh + mm minutes, and
-- that of one that ends in "-hh:mm" is its negative.
pub tz_offset_min-clock :
    (stem : Text) (a b c d : ℕ)
    → a < 10
    → b < 10
    → c < 10
    → d < 10
    → (tz_offset_min (stem ++ b'+' ∷ clock a b c d) ≡ pos ((a * 10 + b) * 60 + (c * 10 + d)))
      × (tz_offset_min (stem ++ b'-' ∷ clock a b c d)
          ≡ pos 0 -ℤ pos ((a * 10 + b) * 60 + (c * 10 + d)))
tz_offset_min-clock stem a b c d ha hb hc hd =
    rw (tail_of stem b'+' a b c d, tail_of stem b'-' a b c d) (ground arith)
