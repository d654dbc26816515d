-- ===== src/Platform.antt =====
-- What the service takes from outside its own source: the arithmetic of doubles, the Unicode case
-- tables, SHA-256 and the calendar. Each is a parameter; a law record states what is relied on.
pub mod Sample
use pureplay_analytics_inges.Domain.Json.{Members}
use pureplay_analytics_inges.Prelude.{
  ℕ, ◌-◌, ◌+◌, ◌<◌, ◌≡◌, Bool, false, ◌&&◌, List, [], ◌∷◌, map, Text, ℤ, leb, if◌then◌else◌, All,
  any, ◌==◌, pos, negsuc, ◌≤ℤ◌,
}

-- The operations on `number` that the modelled code uses. `literal m d` is the decimal m / 10^d.
pub record Number (N : Type 0) : Type 0 where
  pub literal : ℕ → ℕ → N
  pub mul : N → N → N
  pub div : N → N → N
  pub le : N → N → Bool
  pub lt : N → N → Bool
  pub neg : N → N
  pub round : N → N
  pub to_fixed : N → ℕ → Text

-- `iso_minute m` is the first 16 characters of the ISO text of an instant of minute m.
pub record Platform : Type 0 where
  pub to_upper_case : Text → Text
  pub to_lower_case : Text → Text
  pub sha256_hex : Text → Text
  pub iso_minute : ℤ → Text

abbrev pub ascii_upper : ℕ → ℕ
ascii_upper c = if leb b'a' c && leb c b'z' then c - 32 else c

abbrev pub ascii_lower : ℕ → ℕ
ascii_lower c = if leb b'A' c && leb c b'Z' then c + 32 else c

abbrev pub IsAscii : Text → Type 0
IsAscii = All (λ c. c < 128)

abbrev pub has_pipe : Text → Bool
has_pipe = any (λ c. c == b'|')

-- `JSON.stringify` of an object, and the replacement of `EMAIL_REGEX` in a text.
pub record Serialiser (N : Type 0) : Type 0 where
  pub stringify : Members N → Text
  pub scrub_emails : Text → Text

-- The minutes of the years 0000 to 9999, whose ISO texts have a year of four digits.
abbrev pub HasFourDigitYear : ℤ → Type 0
HasFourDigitYear m = (negsuc 1036120319 ≤ℤ m) × (m ≤ℤ pos 4223371679)

-- Case mapping is that of ASCII on ASCII text, and the ISO minute text ("2024-03-15T10:30") tells
-- minutes of those years apart and is free of '|'. Both are documented by ECMA-262.
pub record IsStandard (p : Platform) : Type 0 where
  pub upper_ascii : (t : Text) → IsAscii t → p.to_upper_case t ≡ map ascii_upper t
  pub lower_ascii : (t : Text) → IsAscii t → p.to_lower_case t ≡ map ascii_lower t
  pub minute_injective :
      (m n : ℤ) → HasFourDigitYear m → HasFourDigitYear n → p.iso_minute m ≡ p.iso_minute n → m ≡ n
  pub minute_no_pipe : (m : ℤ) → has_pipe (p.iso_minute m) ≡ false

-- `toFixed` prints digits, a sign and a point, never a '|' (ECMA-262, Number.prototype.toFixed).
pub record IsPrinted {N : Type 0} (num : Number N) : Type 0 where
  pub fixed_no_pipe : (n : N) (d : ℕ) → has_pipe (num.to_fixed n d) ≡ false
