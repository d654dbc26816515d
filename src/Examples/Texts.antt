-- ===== src/Examples/Texts.antt =====
-- Instants as a sign and a number, cursors as marked texts and the order of the code units, for the pages.
use pureplay_analytics_inges.Prelude.{
  ℕ, zero, suc, ◌≡◌, ◌≢◌, refl, ap, true, false, ◌||◌, Option, none, some, [], ◌∷◌, Text, codes,
  text_eq, text_before, ℤ, pos, negsuc, ◌==◌, arith, if◌then◌else◌,
}
use pureplay_analytics_inges.Shots.Query.{Texts}
use pureplay_analytics_inges.Shots.Listing.{IsFaithful, HasYear}

abbrev stamp : ℤ → Text
stamp (pos n) = b'0' ∷ n ∷ []
stamp (negsuc n) = b'-' ∷ n ∷ []

abbrev read_stamp : Text → Option ℤ
read_stamp (c ∷ n ∷ []) = if c == b'0' then some (pos n) else some (negsuc n)
read_stamp t = none

-- Each code unit of the first text has a mark before it, and a zero ends it.
abbrev marked : Text → Text → Text
marked [] b = 0 ∷ b
marked (c ∷ a) b = 1 ∷ c ∷ marked a b

abbrev with_first : ℕ → Option (Option Text × Option Text) → Option (Option Text × Option Text)
with_first c (some (some a, b)) = some (some (c ∷ a), b)
with_first c o = o

abbrev read_marked : Text → Option (Option Text × Option Text)
read_marked [] = none
read_marked (zero ∷ b) = some (some [], some b)
read_marked (suc m ∷ []) = none
read_marked (suc m ∷ c ∷ t) = with_first c (read_marked t)

abbrev pub sample : Texts
sample = record {
  date = λ t. if text_eq t (codes "0") then some (pos 0) else some (pos 1000000);
  iso = stamp;
  instant = read_stamp;
  write_cursor = marked;
  read_cursor = read_marked;
  id_before = text_before;
}

read_stamp-stamp : (t : ℤ) → HasYear t → read_stamp (stamp t) ≡ some t
read_stamp-stamp (pos n) h = refl
read_stamp-stamp (negsuc n) h = refl

read_marked-marked : (a b : Text) → read_marked (marked a b) ≡ some (some a, some b)
read_marked-marked [] b = refl
read_marked-marked (c ∷ a) b = ap (with_first c) (read_marked-marked a b)

marked-present : (a b : Text) → marked a b ≢ []
marked-present [] b h = cc
marked-present (c ∷ a) b h = cc

stamp-present : (t : ℤ) → stamp t ≢ []
stamp-present (pos n) h = cc
stamp-present (negsuc n) h = cc

text_before-irreflexive : (a : Text) → text_before a a ≡ false
text_before-irreflexive [] = refl
text_before-irreflexive (c ∷ a) = ground (arith, text_before-irreflexive a)

text_before-transitive :
    (a b c : Text) → text_before a b ≡ true → text_before b c ≡ true → text_before a c ≡ true
text_before-transitive [] [] c h k = cc
text_before-transitive [] (d ∷ b) [] h k = cc
text_before-transitive [] (d ∷ b) (e ∷ c) h k = refl
text_before-transitive (x ∷ a) [] c h k = cc
text_before-transitive (x ∷ a) (d ∷ b) [] h k = cc
text_before-transitive (x ∷ a) (d ∷ b) (e ∷ c) h k = ground (arith, text_before-transitive a b c)

text_before-connected :
    (a b : Text) → text_eq a b ≡ false → (text_before a b || text_before b a) ≡ true
unfolding text_eq
text_before-connected [] [] h = cc
text_before-connected [] (d ∷ b) h = refl
text_before-connected (c ∷ a) [] h = refl
text_before-connected (c ∷ a) (d ∷ b) h = ground (arith, text_before-connected a b)

pub sample-IsFaithful : IsFaithful sample
sample-IsFaithful = record {
  cursor_read = read_marked-marked;
  cursor_present = marked-present;
  iso_present = stamp-present;
  iso_read = read_stamp-stamp;
  id_irreflexive = text_before-irreflexive;
  id_transitive = text_before-transitive;
  id_connected = text_before-connected;
}
