-- ===== src/Webhooks/Proswing/Parsed.antt =====
-- Shots that src/webhooks/proswing/proswing.parser.ts parses and the search of the repository.
use pureplay_analytics_inges.Prelude.{◌≡◌, refl, true, false, Text, text_eq, ℤ, pos, ◌+ℤ◌, ◌≤ℤ◌}
use pureplay_analytics_inges.Platform.{Number, Platform}
use pureplay_analytics_inges.Domain.Json.{Members}
use pureplay_analytics_inges.Ingestion.ContentHash.Injective.{SameHashInput}
use pureplay_analytics_inges.Ingestion.Repository.{hash_input, is_origin_of}
use pureplay_analytics_inges.Ingestion.Repository.NearDuplicate.{IsHashed, is_origin_of-in_order}
use pureplay_analytics_inges.Webhooks.Proswing.{ProswingCanonicalPayload, parse_proswing}

module _ {N : Type 0} ⦃num : Number N⦄ ⦃p : Platform⦄ where
  parse_proswing-IsHashed :
      (instant : Text → ℤ) (ulid : Text) (raw : Members N) (payload : ProswingCanonicalPayload N)
      (received : ℤ)
      → IsHashed (parse_proswing instant ulid raw payload received)
  unfolding parse_proswing
  parse_proswing-IsHashed instant ulid raw payload received = refl

  -- The payload of one shot, sent again with another id and time.
  abbrev pub sent_again : Text → Text → ProswingCanonicalPayload N → ProswingCanonicalPayload N
  sent_again id occurred_at payload = record payload {
    shot = record payload.shot { id = id; occurred_at = occurred_at };
  }

  same_input :
      (instant : Text → ℤ) (ulid ulid' id at : Text) (raw raw' : Members N)
      (payload : ProswingCanonicalPayload N) (received received' t : ℤ)
      → SameHashInput
          (hash_input (parse_proswing instant ulid raw payload received) t)
          (hash_input (parse_proswing instant ulid' raw' (sent_again id at payload) received') t)
  unfolding parse_proswing
  same_input instant ulid ulid' id at raw raw' payload received received' t = record {
    vendor_user_id = refl;
    club_code = refl;
    minute = refl;
    ball_speed = refl;
    launch_angle = refl;
    carry = refl;
    lateral = refl;
  }

  -- A ProSwing payload sent again with another shot id and a time at most 60 seconds later, and
  -- parsed under another canonical id, has the first parse as an origin.
  pub parse_proswing-sent_again :
      (instant : Text → ℤ) (ulid ulid' id at : Text) (raw raw' : Members N)
      (payload : ProswingCanonicalPayload N) (received received' : ℤ)
      → text_eq ulid ulid' ≡ false
      → instant payload.shot.occurred_at ≤ℤ instant at
      → instant at ≤ℤ instant payload.shot.occurred_at +ℤ pos 60000
      → is_origin_of
          (parse_proswing instant ulid' raw' (sent_again id at payload) received')
          (parse_proswing instant ulid raw payload received)
        ≡ true
  unfolding parse_proswing
  parse_proswing-sent_again instant ulid ulid' id at raw raw' payload received received' other early
        late =
      is_origin_of-in_order (parse_proswing instant ulid' raw' (sent_again id at payload) received')
        (parse_proswing instant ulid raw payload received)
        (parse_proswing-IsHashed instant ulid' raw' (sent_again id at payload) received')
        (parse_proswing-IsHashed instant ulid raw payload received) refl
        (same_input instant ulid ulid' id at raw raw' payload received received'
          (instant payload.shot.occurred_at))
        other early late
