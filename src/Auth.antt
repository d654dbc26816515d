-- ===== src/Auth.antt =====
-- The guards of src/shared/auth/. A guard lets a request through or answers 401 with a message; the
-- list beside the verdict is what it adds to the counter of authentication failures.
pub mod Allowed
pub mod Bearer
use pureplay_analytics_inges.Prelude.{
  ℕ, ◌+◌, ◌*◌, ◌≡◌, Bool, true, false, ◌&&◌, not, Option, none, some, List, [], ◌∷◌, ◌++◌, length,
  ◌==◌, Text, codes, is_empty, strip_prefix, ℤ, pos, ◌-ℤ◌, leb_ℤ, if◌then◌else◌, truthy,
}
use pureplay_analytics_inges.Platform.{Platform}

-- `hmac_hex secret payload` is the HMAC-SHA256 in hexadecimal; `utf8` and `utf8_text` are
-- Buffer.from and its toString; `parse_int` is `none` where parseInt has no finite result.
pub record Crypto : Type 0 where
  pub hmac_hex : Text → Text → Text
  pub utf8 : Text → List ℕ
  pub utf8_text : List ℕ → Text
  pub parse_int : Text → Option ℤ
  pub timing_safe_equal : List ℕ → List ℕ → Bool

-- Documented by Node.js for buffers of one length.
pub record IsSafe (c : Crypto) : Type 0 where
  pub equal_bytes : (a b : List ℕ) → length a ≡ length b → c.timing_safe_equal a b ≡ true → a ≡ b

pub data Mode : Type 0 where
  open_mode hmac_mode api_key_mode : Mode

pub record AuthFailure : Type 0 where
  pub vendor : Text
  pub mode : Text

pub data Verdict : Type 0 where
  allowed : Verdict
  unauthorized : Text → Verdict

-- The metadata of the route, and the parts of the request that the guards read.
pub record Request : Type 0 where
  pub handler_vendor : Option Text
  pub class_vendor : Option Text
  pub header : Text → Option Text
  pub raw_body : Option (List ℕ)

abbrev pub Config : Type 0
Config = Text → Option Text

abbrev refuse : Text → Verdict × List AuthFailure
refuse message = (unauthorized message, [])

abbrev refuse_counted : Text → Text → Text → Verdict × List AuthFailure
refuse_counted vendor mode message =
    (unauthorized message, record { vendor = vendor; mode = mode } ∷ [])

abbrev pub vendor_of : Option Text → Option Text → Option Text
vendor_of none class_vendor = class_vendor
vendor_of (some v) class_vendor = some v

unfoldable pub body_of : Request → List ℕ
body_of req = elim req.raw_body [ none ↦ [] | some bytes ↦ bytes ]

module _ (c : Crypto) where
  unfoldable pub same_bytes : Text → Text → Bool
  same_bytes a b =
      length (c.utf8 a) == length (c.utf8 b) && c.timing_safe_equal (c.utf8 a) (c.utf8 b)

  unfoldable pub signature : Text → Text → Request → Text
  signature secret ts req =
      codes "sha256=" ++ c.hmac_hex secret (ts ++ codes "." ++ c.utf8_text (body_of req))

  -- `!(isNaN(tsSec) || Math.abs(nowSec - tsSec) > 300)`
  abbrev pub is_near : ℤ → Option ℤ → Bool
  is_near now_s none = false
  is_near now_s (some t) = leb_ℤ (now_s -ℤ t) (pos 300) && leb_ℤ (t -ℤ now_s) (pos 300)

  unfoldable pub is_recent : ℤ → Text → Bool
  is_recent now_s ts = is_near now_s (c.parse_int ts)

  unfoldable pub check_headers :
      ℤ → Request → Text → Text → Option Text → Option Text → Verdict × List AuthFailure
  check_headers now_s req vendor secret none sig =
      refuse (codes "Missing X-Webhook-Timestamp or X-Webhook-Signature header.")
  check_headers now_s req vendor secret (some ts) none =
      refuse (codes "Missing X-Webhook-Timestamp or X-Webhook-Signature header.")
  check_headers now_s req vendor secret (some ts) (some sig) =
      if is_recent now_s ts
      then if same_bytes (signature secret ts req) sig
        then (allowed, [])
        else refuse_counted vendor (codes "hmac") (codes "Invalid HMAC signature.")
      else refuse (codes "Request timestamp is outside the 5-minute replay window.")

  unfoldable pub check_secret : ℤ → Request → Text → Option Text → Verdict × List AuthFailure
  check_secret now_s req vendor none =
      refuse_counted vendor (codes "hmac") (codes "HMAC secret not configured for this vendor.")
  check_secret now_s req vendor (some secret) =
      check_headers now_s req vendor secret (truthy (req.header (codes "x-webhook-timestamp")))
        (truthy (req.header (codes "x-webhook-signature")))

  unfoldable pub check_key : Text → Option Text → Option Text → Verdict × List AuthFailure
  check_key vendor none expected =
      refuse_counted vendor (codes "api_key")
        (codes "Missing or unconfigured webhook authentication key.")
  check_key vendor (some provided) none =
      refuse_counted vendor (codes "api_key")
        (codes "Missing or unconfigured webhook authentication key.")
  check_key vendor (some provided) (some expected) =
      if same_bytes expected provided
      then (allowed, [])
      else refuse_counted vendor (codes "api_key") (codes "Invalid webhook authentication key.")

module _ (c : Crypto) ⦃p : Platform⦄ (config : Config) where
  unfoldable pub check_vendor : Mode → ℤ → Request → Option Text → Verdict × List AuthFailure
  check_vendor open_mode now_s req vendor = (allowed, [])
  check_vendor hmac_mode now_s req none =
      refuse (codes "No vendor metadata configured for this route.")
  check_vendor hmac_mode now_s req (some v) =
      check_secret c now_s req v (truthy (config (p.to_upper_case v ++ codes "_HMAC_SECRET")))
  check_vendor api_key_mode now_s req none =
      refuse (codes "No vendor metadata configured for this route.")
  check_vendor api_key_mode now_s req (some v) =
      check_key c v (truthy (req.header (codes "x-webhook-auth")))
        (truthy (config (p.to_upper_case v ++ codes "_API_KEY")))

  -- `WebhookAuthGuard.canActivate` at the second `now_s`.
  unfoldable pub webhook_can_activate : Mode → ℤ → Request → Verdict × List AuthFailure
  webhook_can_activate mode now_s req =
      check_vendor mode now_s req (truthy (vendor_of req.handler_vendor req.class_vendor))

  unfoldable pub check_bearer : Text → Option Text → Verdict
  check_bearer key none =
      unauthorized
        (codes "Authorization: Bearer <INTERNAL_API_KEY> header is required for this endpoint.")
  check_bearer key (some provided) =
      if same_bytes c key provided
      then allowed
      else unauthorized (codes "Invalid internal API key.")

  unfoldable pub bearer : Request → Option Text
  bearer req = elim (req.header (codes "authorization")) [
    | none ↦ none
    | some value ↦ truthy (strip_prefix (codes "Bearer ") value)
  ]

  abbrev check_internal : Request → Option Text → Verdict
  check_internal req none = allowed
  check_internal req (some key) = check_bearer key (bearer req)

  -- `InternalApiGuard.canActivate`
  unfoldable pub internal_can_activate : Request → Verdict
  internal_can_activate req = check_internal req (truthy (config (codes "INTERNAL_API_KEY")))
