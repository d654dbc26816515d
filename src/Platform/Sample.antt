-- ===== src/Platform/Sample.antt =====
-- A platform that meets the laws, for the concrete runs: whole numbers for doubles, ASCII case
-- mapping, the identity for SHA-256, and a minute written in unary.
use pureplay_analytics_inges.Prelude.{
  ℕ, zero, suc, ◌*◌, leb, ltb, ◌/◌, ◌≡◌, refl, ap, false, [], ◌∷◌, map, Text, ℤ, pos, negsuc, arith,
}
use pureplay_analytics_inges.Platform.{
  Number, Serialiser, Platform, ascii_upper, ascii_lower, IsStandard, IsPrinted, has_pipe,
}

abbrev ticks : ℕ → Text
ticks zero = []
ticks (suc n) = b'1' ∷ ticks n

abbrev minute_text : ℤ → Text
minute_text (pos n) = ticks n
minute_text (negsuc n) = b'-' ∷ ticks n

instance abbrev pub whole_numbers : Number ℕ
whole_numbers = record {
  literal = λ m d. m;
  mul = λ a b. a * b;
  div = λ a b. a / b;
  le = λ a b. leb a b;
  lt = λ a b. ltb a b;
  neg = λ a. 0;
  round = λ a. a;
  to_fixed = λ a d. ticks a;
}

-- Serialisation as the empty text: the concrete runs do not look into a failure's body.
instance abbrev pub blank : Serialiser ℕ
blank = record { stringify = λ ms. []; scrub_emails = λ t. t }

instance abbrev pub plain : Platform
plain = record {
  to_upper_case = map ascii_upper;
  to_lower_case = map ascii_lower;
  sha256_hex = λ t. t;
  iso_minute = minute_text;
}

ticks-injective : (m n : ℕ) → ticks m ≡ ticks n → m ≡ n
ticks-injective zero zero h = refl
ticks-injective zero (suc n) h = cc
ticks-injective (suc m) zero h = cc
ticks-injective (suc m) (suc n) h = ap suc (ticks-injective m n (cc))

ticks_no_pipe : (n : ℕ) → has_pipe (ticks n) ≡ false
ticks_no_pipe zero = refl
ticks_no_pipe (suc n) = ticks_no_pipe n

minute_text-injective : (m n : ℤ) → minute_text m ≡ minute_text n → m ≡ n
minute_text-injective (pos m) (pos n) h = ap pos (ticks-injective m n h)
minute_text-injective (pos zero) (negsuc n) h = cc
minute_text-injective (pos (suc m)) (negsuc n) h = ground arith
minute_text-injective (negsuc m) (pos zero) h = cc
minute_text-injective (negsuc m) (pos (suc n)) h = ground arith
minute_text-injective (negsuc m) (negsuc n) h = ap negsuc (ticks-injective m n (cc))

minute_text_no_pipe : (m : ℤ) → has_pipe (minute_text m) ≡ false
minute_text_no_pipe (pos n) = ticks_no_pipe n
minute_text_no_pipe (negsuc n) = ticks_no_pipe n

pub plain-IsStandard : IsStandard plain
plain-IsStandard = record {
  upper_ascii = λ t h. refl;
  lower_ascii = λ t h. refl;
  minute_injective = λ m n _ _ h. minute_text-injective m n h;
  minute_no_pipe = minute_text_no_pipe;
}

pub whole_numbers-IsPrinted : IsPrinted whole_numbers
whole_numbers-IsPrinted = record { fixed_no_pipe = λ n d. ticks_no_pipe n }
