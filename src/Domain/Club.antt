-- ===== src/Domain/Club.antt =====
-- src/shared/domain/club-code.ts
pub mod Trim
pub mod Spelling
use pureplay_analytics_inges.Prelude.{
  ℕ, Bool, true, false, ◌&&◌, ◌||◌, Option, none, some, List, [], ◌∷◌, Text, codes, text_eq,
  is_empty, leb, ◌==◌, if◌then◌else◌, find, any,
}
use pureplay_analytics_inges.Platform.{Platform}

pub data ClubCode : Type 0 where
  dr w3 w4 w5 w7 h2 h3 h4 h5 i1 i2 i3 i4 i5 i6 i7 i8 i9 pw gw aw sw lw pt unknown : ClubCode

abbrev pub club_text : ClubCode → Text
club_text dr = codes "DR"
club_text w3 = codes "3W"
club_text w4 = codes "4W"
club_text w5 = codes "5W"
club_text w7 = codes "7W"
club_text h2 = codes "2H"
club_text h3 = codes "3H"
club_text h4 = codes "4H"
club_text h5 = codes "5H"
club_text i1 = codes "1I"
club_text i2 = codes "2I"
club_text i3 = codes "3I"
club_text i4 = codes "4I"
club_text i5 = codes "5I"
club_text i6 = codes "6I"
club_text i7 = codes "7I"
club_text i8 = codes "8I"
club_text i9 = codes "9I"
club_text pw = codes "PW"
club_text gw = codes "GW"
club_text aw = codes "AW"
club_text sw = codes "SW"
club_text lw = codes "LW"
club_text pt = codes "PT"
club_text unknown = codes "UNKNOWN"

abbrev pub valid_club_codes : List ClubCode
valid_club_codes =
    dr ∷ w3 ∷ w4 ∷ w5 ∷ w7 ∷ h2 ∷ h3 ∷ h4 ∷ h5 ∷ i1 ∷ i2 ∷ i3 ∷ i4 ∷ i5 ∷ i6 ∷ i7 ∷ i8 ∷ i9 ∷ pw
    ∷ gw ∷ aw ∷ sw ∷ lw ∷ pt ∷ unknown ∷ []

abbrev pub alias_map : List (Text × ClubCode)
alias_map =
    (codes "driver", dr)
    ∷ (codes "3 wood", w3)
    ∷ (codes "4 wood", w4)
    ∷ (codes "5 wood", w5)
    ∷ (codes "7 wood", w7)
    ∷ (codes "3wood", w3)
    ∷ (codes "4wood", w4)
    ∷ (codes "5wood", w5)
    ∷ (codes "7wood", w7)
    ∷ (codes "2 hybrid", h2)
    ∷ (codes "3 hybrid", h3)
    ∷ (codes "4 hybrid", h4)
    ∷ (codes "5 hybrid", h5)
    ∷ (codes "2hybrid", h2)
    ∷ (codes "3hybrid", h3)
    ∷ (codes "4hybrid", h4)
    ∷ (codes "5hybrid", h5)
    ∷ (codes "1 iron", i1)
    ∷ (codes "2 iron", i2)
    ∷ (codes "3 iron", i3)
    ∷ (codes "4 iron", i4)
    ∷ (codes "5 iron", i5)
    ∷ (codes "6 iron", i6)
    ∷ (codes "7 iron", i7)
    ∷ (codes "8 iron", i8)
    ∷ (codes "9 iron", i9)
    ∷ (codes "1iron", i1)
    ∷ (codes "2iron", i2)
    ∷ (codes "3iron", i3)
    ∷ (codes "4iron", i4)
    ∷ (codes "5iron", i5)
    ∷ (codes "6iron", i6)
    ∷ (codes "7iron", i7)
    ∷ (codes "8iron", i8)
    ∷ (codes "9iron", i9)
    ∷ (codes "pitching wedge", pw)
    ∷ (codes "gap wedge", gw)
    ∷ (codes "approach wedge", aw)
    ∷ (codes "sand wedge", sw)
    ∷ (codes "lob wedge", lw)
    ∷ (codes "putter", pt)
    ∷ []

-- The members that every object literal, `ALIAS_MAP` too, inherits from `Object.prototype`.
abbrev pub object_prototype : List Text
object_prototype =
    codes "constructor"
    ∷ codes "__proto__"
    ∷ codes "__defineGetter__"
    ∷ codes "__defineSetter__"
    ∷ codes "__lookupGetter__"
    ∷ codes "__lookupSetter__"
    ∷ codes "hasOwnProperty"
    ∷ codes "isPrototypeOf"
    ∷ codes "propertyIsEnumerable"
    ∷ codes "toLocaleString"
    ∷ codes "toString"
    ∷ codes "valueOf"
    ∷ []

-- What `normaliseClub` returns: a club code, or a member of `Object.prototype` under its name.
pub data ClubValue : Type 0 where
  code : ClubCode → ClubValue
  inherited : Text → ClubValue

-- White space and line terminators, as `String.prototype.trim` removes them.
abbrev pub is_space : ℕ → Bool
is_space c =
    (leb 9 c && leb c 13)
    || c == 32
    || c == 160
    || c == 0x1680
    || (leb 0x2000 c && leb c 0x200a)
    || c == 0x2028
    || c == 0x2029
    || c == 0x202f
    || c == 0x205f
    || c == 0x3000
    || c == 0xfeff

abbrev pub trim_start : Text → Text
trim_start [] = []
trim_start (c ∷ s) = if is_space c then trim_start s else c ∷ s

abbrev pub drop_if_blank : ℕ → Text → Text
drop_if_blank c [] = if is_space c then [] else c ∷ []
drop_if_blank c (d ∷ s) = c ∷ d ∷ s

abbrev pub trim_end : Text → Text
trim_end [] = []
trim_end (c ∷ s) = drop_if_blank c (trim_end s)

unfoldable pub trim : Text → Text
trim s = trim_end (trim_start s)

-- `VALID_CLUB_CODES.includes(t)`, with the code that is found.
unfoldable pub club_of : Text → Option ClubCode
unfolding text_eq
club_of t = find (λ c. text_eq (club_text c) t) valid_club_codes

-- `upper.match(/^I(\d)$/)` and the test of the candidate.
unfoldable pub inverted_iron : Text → Option ClubCode
unfolding club_of
inverted_iron (i ∷ d ∷ []) =
    if i == b'I' && (leb b'0' d && leb d b'9') then club_of (d ∷ b'I' ∷ []) else none
inverted_iron _ = none

abbrev pub alias_in : Text → List (Text × ClubCode) → Option ClubCode
alias_in t [] = none
alias_in t ((k, c) ∷ rest) = if text_eq k t then some c else alias_in t rest

-- `ALIAS_MAP[lower]`: an own member, else an inherited one, else undefined.
unfoldable pub alias_value : Text → ClubValue
unfolding text_eq
alias_value t = elim (alias_in t alias_map) [
  | some c ↦ code c
  | none ↦ if any (λ m. text_eq m t) object_prototype then inherited t else code unknown
]

-- The three lookups, in the upper-case and the lower-case form of the trimmed text.
unfoldable pub looked_up : Text → Text → ClubValue
looked_up upper lower = elim (club_of upper) [
  | some c ↦ code c
  | none ↦ elim (inverted_iron upper) [ some c ↦ code c | none ↦ alias_value lower ]
]

module _ ⦃p : Platform⦄ where
  unfoldable pub normalise_club : Text → ClubValue
  normalise_club raw =
      if is_empty raw
      then code unknown
      else looked_up (p.to_upper_case (trim raw)) (p.to_lower_case (trim raw))
