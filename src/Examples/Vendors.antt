-- ===== src/Examples/Vendors.antt =====
-- Spellings of clubs, a signed request, and the wire formats of ProSwing.
use pureplay_analytics_inges.Prelude.{
  ℕ, ◌*◌, ◌+◌, ◌≡◌, refl, ◌⊎◌, ◌++◌, true, Option, none, some, ◌∷◌, Text, codes, text_eq,
  text_eq_iff, ℤ, pos, ◌-ℤ◌, ◌+ℤ◌, arith, if◌then◌else◌, truthy,
}
use pureplay_analytics_inges.Platform.Sample.{whole_numbers, plain, plain-IsStandard}
use pureplay_analytics_inges.Domain.Json.{end}
use pureplay_analytics_inges.Domain.Club.{
  code, inherited, i7, dr, normalise_club, alias_in, alias_map,
}
use pureplay_analytics_inges.Domain.Club.Spelling.{
  normalise_club-club_text, normalise_club-alias, normalise_club-constructor,
}
use pureplay_analytics_inges.Auth.{
  Crypto, IsSafe, Request, Config, hmac_mode, allowed, same_bytes, signature, is_recent, body_of,
  webhook_can_activate, check_vendor, check_secret, check_headers,
}
use pureplay_analytics_inges.Auth.{internal_can_activate, check_bearer, bearer}
use pureplay_analytics_inges.Auth.Bearer.{HasToken, internal_can_activate-HasToken}
use pureplay_analytics_inges.Auth.Allowed.{Admitted, webhook_can_activate-Admitted}
use pureplay_analytics_inges.Ingestion.Repository.{is_origin_of}
use pureplay_analytics_inges.Webhooks.Proswing.{
  ShotV2, ProswingCanonicalPayload, mph, yd, parse_proswing, tz_offset_min,
}
use pureplay_analytics_inges.Webhooks.Proswing.Schema.{Checks, accepts_v2, is_complete_v2}
use pureplay_analytics_inges.Webhooks.Proswing.Offset.{clock, tz_offset_min-clock}
use pureplay_analytics_inges.Webhooks.Proswing.Parsed.{sent_again, parse_proswing-sent_again}

normalise_club-club_text_example : normalise_club (codes "dr") ≡ code dr
normalise_club-club_text_example =
    normalise_club-club_text dr (codes "dr") plain-IsStandard (ground arith, (ground arith, tt))
      refl refl

listed_alias : alias_in (codes "7 iron") alias_map ≡ some i7
unfolding text_eq
listed_alias = refl

normalise_club-alias_example : normalise_club (codes "7 iron") ≡ code i7
normalise_club-alias_example =
    normalise_club-alias (codes "7 iron") (codes "7 iron") i7 plain-IsStandard
      (
        ground arith,
        (ground arith, (ground arith, (ground arith, (ground arith, (ground arith, tt))))),
      )
      refl refl listed_alias

normalise_club-constructor_example :
    normalise_club (codes "Constructor") ≡ inherited (codes "constructor")
normalise_club-constructor_example =
    normalise_club-constructor (codes "Constructor") plain-IsStandard
      (
        ground arith,
        (
          ground arith,
          (
            ground arith,
            (
              ground arith,
              (
                ground arith,
                (
                  ground arith,
                  (
                    ground arith,
                    (ground arith, (ground arith, (ground arith, (ground arith, tt)))),
                  ),
                ),
              ),
            ),
          ),
        ),
      )
      refl refl

-- Bytes are the code units, the "HMAC" is the payload after the secret, and every stamp is 1000.
abbrev pub clear_text : Crypto
clear_text = record {
  hmac_hex = λ secret payload. secret ++ payload;
  utf8 = λ t. t;
  utf8_text = λ bytes. bytes;
  parse_int = λ t. some (pos 1000);
  timing_safe_equal = λ a b. text_eq a b;
}

pub clear_text-IsSafe : IsSafe clear_text
clear_text-IsSafe = record { equal_bytes = λ a b _ h. (text_eq_iff a b).0 h }

abbrev signed_headers : Text → Option Text
signed_headers name =
    if text_eq name (codes "x-webhook-timestamp")
    then some (codes "1000")
    else if text_eq name (codes "x-webhook-signature")
    then some (codes "sha256=k1000.{}")
    else none

abbrev signed_request : Request
signed_request = record {
  handler_vendor = none;
  class_vendor = some (codes "proswing");
  header = signed_headers;
  raw_body = some (codes "{}");
}

abbrev secrets : Config
secrets name = if text_eq name (codes "PROSWING_HMAC_SECRET") then some (codes "k") else none

passes : (webhook_can_activate clear_text secrets hmac_mode (pos 1200) signed_request).0 ≡ allowed
unfolding webhook_can_activate check_vendor check_secret check_headers truthy is_recent same_bytes
    signature body_of text_eq ◌-ℤ◌
passes = refl

webhook_can_activate-Admitted_example :
    Admitted clear_text clear_text-IsSafe secrets (pos 1200) signed_request hmac_mode
webhook_can_activate-Admitted_example =
    webhook_can_activate-Admitted clear_text clear_text-IsSafe secrets (pos 1200) signed_request
      hmac_mode passes

abbrev checks : Checks ℕ
checks = record { is_datetime = λ t. true; is_int = λ n. true }

abbrev flat_shot : ShotV2 ℕ
flat_shot = record {
  id = codes "s1";
  occurred_at = codes "2024-03-15T20:30:00+10:00";
  club_code = codes "7i";
  ball_speed_mph = none;
  ball_speed_kph = some 180;
  ball_speed_mps = none;
  club_speed_mph = none;
  club_speed_kph = none;
  club_speed_mps = none;
  launch_deg = 5;
  carry_yd = some 150;
  carry_m = none;
  total_yd = none;
  total_m = none;
  deviation_yd = none;
  deviation_m = some 3;
  deviation_ft = none;
}

accepted : accepts_v2 checks (codes "token-01") flat_shot ≡ true
unfolding accepts_v2 is_complete_v2
accepted = refl

tz_offset_min-clock_example :
    (tz_offset_min (codes "20:30:00" ++ b'+' ∷ clock 0 9 3 0)
      ≡ pos ((0 * 10 + 9) * 60 + (3 * 10 + 0)))
    × (tz_offset_min (codes "20:30:00" ++ b'-' ∷ clock 0 9 3 0)
        ≡ pos 0 -ℤ pos ((0 * 10 + 9) * 60 + (3 * 10 + 0)))
tz_offset_min-clock_example =
    tz_offset_min-clock (codes "20:30:00") 0 9 3 0 (ground arith) (ground arith) (ground arith)
      (ground arith)

abbrev nested_payload : ProswingCanonicalPayload ℕ
nested_payload = record {
  user_token = codes "token-01";
  shot = record {
    id = codes "s1";
    occurred_at = codes "2024-03-15T20:30:00+10:00";
    club_code = codes "7i";
    ball_speed = record { value = 112; unit = mph };
    club_speed = none;
    launch = 16;
    carry = record { value = 150; unit = yd };
    total = none;
    deviation = record { value = 3; unit = yd };
    spin_rpm = none;
  };
}

-- "e" is the first minute, and any other text half a minute later.
abbrev at_instant : Text → ℤ
at_instant t = if text_eq t (codes "e") then pos 60000 else pos 90000

parse_proswing-sent_again_example :
    is_origin_of
      (parse_proswing at_instant
        (codes "u2")
        end
        (sent_again
          (codes "s2")
          (codes "f")
          (record nested_payload { shot = record nested_payload.shot { occurred_at = codes "e" } }))
        (pos 90500))
      (parse_proswing at_instant
        (codes "u1")
        end
        (record nested_payload { shot = record nested_payload.shot { occurred_at = codes "e" } })
        (pos 60500))
    ≡ true
unfolding text_eq ◌+ℤ◌
parse_proswing-sent_again_example =
    parse_proswing-sent_again at_instant (codes "u1") (codes "u2") (codes "s2") (codes "f") end end
      (record nested_payload { shot = record nested_payload.shot { occurred_at = codes "e" } })
      (pos 60500) (pos 90500) refl (ground arith) (ground arith)

abbrev internal_request : Request
internal_request = record {
  handler_vendor = none;
  class_vendor = none;
  header = λ name. if text_eq name (codes "authorization") then some (codes "Bearer key") else none;
  raw_body = none;
}

abbrev internal_config : Config
internal_config name = if text_eq name (codes "INTERNAL_API_KEY") then some (codes "key") else none

internal_passes : internal_can_activate clear_text internal_config internal_request ≡ allowed
unfolding internal_can_activate check_bearer bearer truthy same_bytes text_eq
internal_passes = refl

internal_can_activate-HasToken_example :
    (truthy (internal_config (codes "INTERNAL_API_KEY")) ≡ none)
    ⊎ ((key : Text) × (truthy (internal_config (codes "INTERNAL_API_KEY")) ≡ some key)
        × HasToken clear_text clear_text-IsSafe internal_config internal_request key)
internal_can_activate-HasToken_example =
    internal_can_activate-HasToken clear_text clear_text-IsSafe internal_config internal_request
      internal_passes
