-- ===== src/Ingestion/ContentHash/Injective.antt =====
-- What the hashed text of src/ingestion/content-hash.ts tells of its parts.
use mathlib.Core.List.{append_assoc}
use pureplay_analytics_inges.Prelude.{
  ℕ, ◌≡◌, ◌∙◌, refl, sym, ap, false, Option, none, some, [], ◌∷◌, ◌++◌, Text, codes, floor_div,
  join, arith, if◌then◌else◌, ◌==◌,
}
use pureplay_analytics_inges.Platform.{
  Number, Platform, IsStandard, HasFourDigitYear, IsPrinted, has_pipe,
}
use pureplay_analytics_inges.Domain.Club.{ClubCode, club_text, code, club_of}
use pureplay_analytics_inges.Ingestion.ContentHash.{
  ContentHashInput, minute_bucket, club_value_text, round_to, hash_text,
}

-- A text cut at its last '|'.
abbrev cut_at : ℕ → Text → Option (Text × Text) → Option (Text × Text)
cut_at c s none = if c == b'|' then some ([], s) else none
cut_at c s (some (a, b)) = some (c ∷ a, b)

abbrev split_last : Text → Option (Text × Text)
split_last [] = none
split_last (c ∷ s) = cut_at c s (split_last s)

split_last-none : (x : Text) → has_pipe x ≡ false → split_last x ≡ none
split_last-none [] h = refl
split_last-none (c ∷ x) h = ground (arith, split_last-none x)

split_last-append : (s x : Text) → has_pipe x ≡ false → split_last (s ++ b'|' ∷ x) ≡ some (s, x)
split_last-append [] x h = rw (split_last-none x h)
split_last-append (c ∷ s) x h = rw (split_last-append s x h)

pub last_part :
    (s t x y : Text)
    → has_pipe x ≡ false
    → has_pipe y ≡ false
    → (s ++ b'|' ∷ x) ≡ (t ++ b'|' ∷ y)
    → (s ≡ t) × (x ≡ y)
last_part s t x y h k e =
    let same : ◌≡◌ {A = Option (Text × Text)} (some (s, x)) (some (t, y)) =
      sym (split_last-append s x h) ∙ ap split_last e ∙ split_last-append t y k in
    (cc, cc)

club_text_no_pipe : (c : ClubCode) → has_pipe (club_text c) ≡ false
club_text_no_pipe ClubCode.dr = refl
club_text_no_pipe _ = refl

club_of-club_text : (c : ClubCode) → club_of (club_text c) ≡ some c
unfolding club_of
club_of-club_text ClubCode.dr = refl
club_of-club_text _ = refl

club_text-injective : (c d : ClubCode) → club_text c ≡ club_text d → c ≡ d
club_text-injective c d h =
    let same : some c ≡ some d = sym (club_of-club_text c) ∙ ap club_of h ∙ club_of-club_text d in
    cc

-- Seven parts, joined to the left so that the last one can be cut off.
abbrev joined : Text → Text → Text → Text → Text → Text → Text → Text
joined a b c d e f g =
    (((((a ++ b'|' ∷ b) ++ b'|' ∷ c) ++ b'|' ∷ d) ++ b'|' ∷ e) ++ b'|' ∷ f) ++ b'|' ∷ g

join-joined :
    (a b c d e f g : Text)
    → join (codes "|") (a ∷ b ∷ c ∷ d ∷ e ∷ f ∷ g ∷ []) ≡ joined a b c d e f g
join-joined a b c d e f g = simp append_assoc

-- Equal joins of parts of which all but the first are free of '|' have equal parts.
joined-injective :
    (a b c d e f g a' b' c' d' e' f' g' : Text)
    → (has_pipe b ≡ false)
      × (has_pipe c ≡ false)
      × (has_pipe d ≡ false)
      × (has_pipe e ≡ false)
      × (has_pipe f ≡ false)
      × (has_pipe g ≡ false)
    → (has_pipe b' ≡ false)
      × (has_pipe c' ≡ false)
      × (has_pipe d' ≡ false)
      × (has_pipe e' ≡ false)
      × (has_pipe f' ≡ false)
      × (has_pipe g' ≡ false)
    → joined a b c d e f g ≡ joined a' b' c' d' e' f' g'
    → (a ≡ a') × (b ≡ b') × (c ≡ c') × (d ≡ d') × (e ≡ e') × (f ≡ f') × (g ≡ g')
joined-injective a b c d e f g a' b' c' d' e' f' g' h k eq =
    let (eq6, g6) = last_part _ _ g g' h.5 k.5 eq in
    let (eq5, f5) = last_part _ _ f f' h.4 k.4 eq6 in
    let (eq4, e4) = last_part _ _ e e' h.3 k.3 eq5 in
    let (eq3, d3) = last_part _ _ d d' h.2 k.2 eq4 in
    let (eq2, c2) = last_part _ _ c c' h.1 k.1 eq3 in
    let (a1, b1) = last_part a a' b b' h.0 k.0 eq2 in (a1, b1, c2, d3, e4, f5, g6)

-- Two inputs that the hash cannot tell apart: the same user, club and minute, and measurements that
-- print alike after rounding.
pub record SameHashInput {N : Type 0} ⦃num : Number N⦄ (a b : ContentHashInput N) : Type 0 where
  pub vendor_user_id : a.vendor_user_id ≡ b.vendor_user_id
  pub club_code : a.club_code ≡ b.club_code
  pub minute : floor_div a.captured_at_utc 60000 ≡ floor_div b.captured_at_utc 60000
  pub ball_speed :
      num.to_fixed (round_to a.ball_speed_mps 1) 1 ≡ num.to_fixed (round_to b.ball_speed_mps 1) 1
  pub launch_angle :
      num.to_fixed (round_to a.launch_angle_deg 1) 1
      ≡ num.to_fixed (round_to b.launch_angle_deg 1) 1
  pub carry : num.to_fixed (round_to a.carry_m 0) 0 ≡ num.to_fixed (round_to b.carry_m 0) 0
  pub lateral : num.to_fixed (round_to a.lateral_m 0) 0 ≡ num.to_fixed (round_to b.lateral_m 0) 0

module _ {N : Type 0} ⦃num : Number N⦄ ⦃p : Platform⦄ where
  hash_text-joined :
      (a : ContentHashInput N) (c : ClubCode)
      → a.club_code ≡ code c
      → hash_text a
        ≡ joined a.vendor_user_id
            (club_text c)
            (p.iso_minute (floor_div a.captured_at_utc 60000))
            (num.to_fixed (round_to a.ball_speed_mps 1) 1)
            (num.to_fixed (round_to a.launch_angle_deg 1) 1)
            (num.to_fixed (round_to a.carry_m 0) 0)
            (num.to_fixed (round_to a.lateral_m 0) 0)
  unfolding hash_text minute_bucket club_value_text
  hash_text-joined a c h = rw h (join-joined _ _ _ _ _ _ _)

  -- Two inputs have one hash text only if they agree in user, club and minute and in the
  -- printed rounded measurements, for recognised clubs and instants of the years 0000 to 9999,
  -- where minute texts differ and neither they nor printed numbers have a '|'.
  pub hash_text-injective :
      (a b : ContentHashInput N) (c d : ClubCode)
      → IsStandard p
      → IsPrinted num
      → a.club_code ≡ code c
      → b.club_code ≡ code d
      → HasFourDigitYear (floor_div a.captured_at_utc 60000)
      → HasFourDigitYear (floor_div b.captured_at_utc 60000)
      → hash_text a ≡ hash_text b
      → SameHashInput a b
  hash_text-injective a b c d std pr ca db ya yb e =
      let fixed = pr.fixed_no_pipe in
      let (user, club, minute, speed, angle, carry, lateral) =
        joined-injective _ _ _ _ _ _ _ _ _ _ _ _ _ _
          (club_text_no_pipe c, std.minute_no_pipe _, fixed _ _, fixed _ _, fixed _ _, fixed _ _)
          (club_text_no_pipe d, std.minute_no_pipe _, fixed _ _, fixed _ _, fixed _ _, fixed _ _)
          (sym (hash_text-joined a c ca) ∙ e ∙ hash_text-joined b d db) in
      record {
        vendor_user_id = user;
        club_code = ca ∙ ap code (club_text-injective c d club) ∙ sym db;
        minute = std.minute_injective _ _ ya yb minute;
        ball_speed = speed;
        launch_angle = angle;
        carry = carry;
        lateral = lateral;
      }

  -- The converse: such inputs have one hash.
  pub SameHashInput-hash_text :
      (a b : ContentHashInput N) → SameHashInput a b → hash_text a ≡ hash_text b
  unfolding hash_text minute_bucket
  SameHashInput-hash_text a b h =
      let minute = ap p.iso_minute h.minute in
      rw (h.vendor_user_id, h.club_code, minute, h.ball_speed, h.launch_angle, h.carry, h.lateral)
