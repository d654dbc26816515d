-- ===== src/Auth/Allowed.antt =====
-- The requests that src/shared/auth/webhook-auth.guard.ts lets through.
use pureplay_analytics_inges.Prelude.{
  ◌++◌, ◌≡◌, refl, true, Option, none, some, Text, codes, ℤ, pos, ◌-ℤ◌, ◌≤ℤ◌, arith, ==_iff,
  Bool-cases, leb_ℤ→≤ℤ, &&-eq-true, inl, inr, truthy,
}
use pureplay_analytics_inges.Platform.{Platform}
use pureplay_analytics_inges.Auth.{
  Crypto, IsSafe, Mode, open_mode, hmac_mode, api_key_mode, allowed, Request, Config, same_bytes,
  signature, is_near, is_recent, check_headers, check_secret, check_key, check_vendor,
  webhook_can_activate, vendor_of,
}

module _ (c : Crypto) (safe : IsSafe c) where
  pub same_bytes-eq : (a b : Text) → same_bytes c a b ≡ true → c.utf8 a ≡ c.utf8 b
  unfolding same_bytes
  same_bytes-eq a b h =
      let parts = &&-eq-true _ _ h in
      safe.equal_bytes (c.utf8 a) (c.utf8 b) ((==_iff _ _).0 parts.0) parts.1

  -- A time stamp within 300 seconds of the clock, on either side.
  abbrev pub IsRecent : ℤ → Text → Type 0
  IsRecent now_s ts =
      (t : ℤ) × (c.parse_int ts ≡ some t) × ((now_s -ℤ t) ≤ℤ pos 300) × ((t -ℤ now_s) ≤ℤ pos 300)

  is_near-IsRecent :
      (now_s : ℤ) (ts : Text) (o : Option ℤ)
      → c.parse_int ts ≡ o
      → is_near c now_s o ≡ true
      → IsRecent now_s ts
  is_near-IsRecent now_s ts none e h = cc
  is_near-IsRecent now_s ts (some t) e h =
      let parts = &&-eq-true _ _ h in
      (t, e, leb_ℤ→≤ℤ (now_s -ℤ t) (pos 300) parts.0, leb_ℤ→≤ℤ (t -ℤ now_s) (pos 300) parts.1)

  is_recent-IsRecent : (now_s : ℤ) (ts : Text) → is_recent c now_s ts ≡ true → IsRecent now_s ts
  unfolding is_recent
  is_recent-IsRecent now_s ts h = is_near-IsRecent now_s ts _ refl h

  -- The three ways through the guard of the webhooks.
  pub data Admitted ⦃p : Platform⦄ (config : Config) (now_s : ℤ) (req : Request)
      : Mode → Type 0 where
    open_door : Admitted config now_s req open_mode
    signed :
        (vendor secret ts sig : Text)
        → truthy (vendor_of req.handler_vendor req.class_vendor) ≡ some vendor
        → truthy (config (p.to_upper_case vendor ++ codes "_HMAC_SECRET")) ≡ some secret
        → truthy (req.header (codes "x-webhook-timestamp")) ≡ some ts
        → truthy (req.header (codes "x-webhook-signature")) ≡ some sig
        → IsRecent now_s ts
        → c.utf8 (signature c secret ts req) ≡ c.utf8 sig
        → Admitted config now_s req hmac_mode
    keyed :
        (vendor key provided : Text)
        → truthy (vendor_of req.handler_vendor req.class_vendor) ≡ some vendor
        → truthy (config (p.to_upper_case vendor ++ codes "_API_KEY")) ≡ some key
        → truthy (req.header (codes "x-webhook-auth")) ≡ some provided
        → c.utf8 key ≡ c.utf8 provided
        → Admitted config now_s req api_key_mode

module _ (c : Crypto) (safe : IsSafe c) ⦃p : Platform⦄ (config : Config) (now_s : ℤ)
    (req : Request) where
  from_headers :
      (vendor secret : Text) (ts sig : Option Text)
      → truthy (vendor_of req.handler_vendor req.class_vendor) ≡ some vendor
      → truthy (config (p.to_upper_case vendor ++ codes "_HMAC_SECRET")) ≡ some secret
      → truthy (req.header (codes "x-webhook-timestamp")) ≡ ts
      → truthy (req.header (codes "x-webhook-signature")) ≡ sig
      → (check_headers c now_s req vendor secret ts sig).0 ≡ allowed
      → Admitted c safe config now_s req hmac_mode
  unfolding check_headers
  from_headers vendor secret none sig v s t g h = cc
  from_headers vendor secret (some ts) none v s t g h = cc
  from_headers vendor secret (some ts) (some sig) v s t g h =
      elim (Bool-cases (is_recent c now_s ts)) [
        | inl recent ↦ elim (Bool-cases (same_bytes c (signature c secret ts req) sig)) [
          | inl e ↦
              signed vendor secret ts sig v s t g (is_recent-IsRecent c safe now_s ts recent)
                (same_bytes-eq c safe _ _ e)
          | inr e ↦ ground arith
        ]
        | inr stale ↦ ground arith
      ]

  from_secret :
      (vendor : Text) (secret : Option Text)
      → truthy (vendor_of req.handler_vendor req.class_vendor) ≡ some vendor
      → truthy (config (p.to_upper_case vendor ++ codes "_HMAC_SECRET")) ≡ secret
      → (check_secret c now_s req vendor secret).0 ≡ allowed
      → Admitted c safe config now_s req hmac_mode
  unfolding check_secret
  from_secret vendor none v s h = cc
  from_secret vendor (some secret) v s h = from_headers vendor secret _ _ v s refl refl h

  from_key :
      (vendor : Text) (provided key : Option Text)
      → truthy (vendor_of req.handler_vendor req.class_vendor) ≡ some vendor
      → truthy (req.header (codes "x-webhook-auth")) ≡ provided
      → truthy (config (p.to_upper_case vendor ++ codes "_API_KEY")) ≡ key
      → (check_key c vendor provided key).0 ≡ allowed
      → Admitted c safe config now_s req api_key_mode
  unfolding check_key
  from_key vendor none key v g k h = cc
  from_key vendor (some provided) none v g k h = cc
  from_key vendor (some provided) (some key) v g k h =
      elim (Bool-cases (same_bytes c key provided)) [
        | inl e ↦ keyed vendor key provided v k g (same_bytes-eq c safe _ _ e)
        | inr e ↦ ground arith
      ]

  from_vendor :
      (mode : Mode) (vendor : Option Text)
      → truthy (vendor_of req.handler_vendor req.class_vendor) ≡ vendor
      → (check_vendor c config mode now_s req vendor).0 ≡ allowed
      → Admitted c safe config now_s req mode
  unfolding check_vendor
  from_vendor open_mode vendor v h = open_door
  from_vendor hmac_mode none v h = cc
  from_vendor hmac_mode (some vendor) v h = from_secret vendor _ v refl h
  from_vendor api_key_mode none v h = cc
  from_vendor api_key_mode (some vendor) v h = from_key vendor _ _ v refl refl h

  -- A request that the webhook guard lets through, unless the mode is "none", is of a route
  -- with a vendor, and has, in the mode "hmac", a time stamp within 300 seconds of the clock
  -- and a signature whose bytes are those of the HMAC of the stamp and the body under the
  -- vendor's secret, and in the mode "api_key" a key whose bytes are those of the vendor's.
  -- `timingSafeEqual` is assumed to accept buffers of one length only if they are equal.
  pub webhook_can_activate-Admitted :
      (mode : Mode)
      → (webhook_can_activate c config mode now_s req).0 ≡ allowed
      → Admitted c safe config now_s req mode
  unfolding webhook_can_activate
  webhook_can_activate-Admitted mode h = from_vendor mode _ refl h
