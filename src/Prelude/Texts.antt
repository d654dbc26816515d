-- ===== src/Prelude/Texts.antt =====
-- A JavaScript string as the list of its UTF-16 code units.
use Prim.Native.Nat.{ℕ, zero, suc, ◌+◌, ◌/◌, ◌%◌, ◌<◌}
use Prim.Native.Char.{code}
use Prim.Native.String.{String}
use mathlib.Core.Path.{◌≡◌, refl}
use mathlib.Core.Logic.{◌↔◌, inl, inr}
use mathlib.Core.Bool.{Bool, true, false, ◌&&◌, ◌||◌}
use mathlib.Core.List.{List, [], ◌∷◌, ◌++◌}
use mathlib.Core.Option.{Option, none, some}
use native.Mathlib.Omega.{arith}
use pureplay_analytics_inges.Prelude.Tests.{◌==◌, ltb, if◌then◌else◌, Bool-cases}
use pureplay_analytics_inges.Prelude.Lists.{any}

abbrev pub Text : Type 0
Text = List ℕ

-- A literal of the source (its literals are ASCII).
abbrev pub codes : String → Text
codes String.[] = []
codes (String.◌∷◌ c s) = code c ∷ codes s

unfoldable pub text_eq : Text → Text → Bool
text_eq [] [] = true
text_eq [] (b ∷ ys) = false
text_eq (a ∷ xs) [] = false
text_eq (a ∷ xs) (b ∷ ys) = (a == b) && text_eq xs ys

pub text_eq_iff : (s t : Text) → (text_eq s t ≡ true) ↔ (s ≡ t)
unfolding text_eq
text_eq_iff [] [] = (λ _. refl, λ _. refl)
text_eq_iff [] (b ∷ ys) = ground arith
text_eq_iff (a ∷ xs) [] = ground arith
text_eq_iff (a ∷ xs) (b ∷ ys) = ground (arith, text_eq_iff xs ys)

pub text_eq_refl : (s : Text) → text_eq s s ≡ true
text_eq_refl s = (text_eq_iff s s).1 refl

pub text_eq_comm : (s t : Text) → text_eq s t ≡ text_eq t s
unfolding text_eq
text_eq_comm [] [] = refl
text_eq_comm [] (b ∷ ys) = refl
text_eq_comm (a ∷ xs) [] = refl
text_eq_comm (a ∷ xs) (b ∷ ys) = ground (arith, text_eq_comm xs ys)

abbrev pub is_empty : Text → Bool
is_empty [] = true
is_empty (c ∷ s) = false

-- `parts.join(separator)`.
abbrev pub join : Text → List Text → Text
join sep [] = []
join sep (x ∷ []) = x
join sep (x ∷ y ∷ r) = x ++ sep ++ join sep (y ∷ r)

-- The decimal digits of a number, most significant first, in front of what is already printed.
-- The fuel is one more than the number, which has fewer digits than that.
abbrev digits_onto : ℕ → ℕ → Text → Text
digits_onto zero n out = out
digits_onto (suc f) n out =
    let rest = digits_onto f (n / 10) ((48 + n % 10) ∷ out) in
    if ltb n 10 then (48 + n) ∷ out else rest

unfoldable pub print_ℕ : ℕ → Text
print_ℕ n = digits_onto (suc n) n []

-- What holds of no digit holds of no character of a printed number.
any-digits_onto :
    (f : ℕ → Bool)
    → ((d : ℕ) → d < 10 → f (48 + d) ≡ false)
    → (fuel n : ℕ) (out : Text) → any f out ≡ false
    → any f (digits_onto fuel n out) ≡ false
any-digits_onto f h zero n out k = k
any-digits_onto f h (suc fuel) n out k =
    let rest =
      any-digits_onto f h fuel (n / 10) ((48 + n % 10) ∷ out)
        (ground (arith, h (n % 10) (omega arith), k)) in
    elim (Bool-cases (ltb n 10)) [
      | inl e ↦ rw e (ground (arith, h n (ground arith), k))
      | inr e ↦ rw e rest
    ]

pub any-print_ℕ :
    (f : ℕ → Bool) → ((d : ℕ) → d < 10 → f (48 + d) ≡ false) → (n : ℕ) → any f (print_ℕ n) ≡ false
unfolding print_ℕ
any-print_ℕ f h n = any-digits_onto f h (suc n) n [] refl

-- `t < u` for strings: the order of their code units.
abbrev pub text_before : Text → Text → Bool
text_before [] [] = false
text_before [] (d ∷ u) = true
text_before (c ∷ t) [] = false
text_before (c ∷ t) (d ∷ u) = ltb c d || (c == d && text_before t u)

-- `starts_with prefix s`, with what follows the prefix.
abbrev pub strip_prefix : Text → Text → Option Text
strip_prefix [] s = some s
strip_prefix (c ∷ p) [] = none
strip_prefix (c ∷ p) (d ∷ s) = if c == d then strip_prefix p s else none

-- What a value is where the code tests it for truth: an empty text counts as missing.
unfoldable pub truthy : Option Text → Option Text
truthy none = none
truthy (some t) = if is_empty t then none else some t
