-- ===== src/Auth/Bearer.antt =====
-- The requests that src/shared/auth/internal-api.guard.ts lets through.
use pureplay_analytics_inges.Prelude.{
  ◌≡◌, refl, ◌⊎◌, inl, inr, Option, none, some, Text, codes, Bool-cases, arith, truthy,
}
use pureplay_analytics_inges.Platform.{Platform}
use pureplay_analytics_inges.Auth.{
  Crypto, IsSafe, Request, Config, allowed, same_bytes, bearer, check_bearer, internal_can_activate,
}
use pureplay_analytics_inges.Auth.Allowed.{same_bytes-eq}

module _ (c : Crypto) (safe : IsSafe c) ⦃p : Platform⦄ (config : Config) (req : Request) where
  -- A bearer token with the bytes of a key.
  abbrev pub HasToken : Text → Type 0
  HasToken key = (token : Text) × (bearer c config req ≡ some token) × (c.utf8 key ≡ c.utf8 token)

  check_bearer-HasToken :
      (key : Text) (token : Option Text)
      → bearer c config req ≡ token
      → check_bearer c config key token ≡ allowed
      → HasToken key
  unfolding check_bearer
  check_bearer-HasToken key none e h = cc
  check_bearer-HasToken key (some token) e h = elim (Bool-cases (same_bytes c key token)) [
    | inl same ↦ (token, e, same_bytes-eq c safe key token same)
    | inr other ↦ ground arith
  ]

  from_key :
      (key : Option Text)
      → truthy (config (codes "INTERNAL_API_KEY")) ≡ key
      → internal_can_activate c config req ≡ allowed
      → (key ≡ none) ⊎ ((k : Text) × (key ≡ some k) × HasToken k)
  unfolding internal_can_activate
  from_key none e h = inl refl
  from_key (some k) e h =
      inr (k, refl, check_bearer-HasToken k (bearer c config req) refl (rw e at h))

  -- If the internal guard lets a request through, then either no key is configured or the
  -- request has a bearer token, not empty, with the bytes of the key. `timingSafeEqual` is
  -- assumed to accept buffers of one length only if they are equal.
  pub internal_can_activate-HasToken :
      internal_can_activate c config req ≡ allowed
      → (truthy (config (codes "INTERNAL_API_KEY")) ≡ none)
        ⊎ ((key : Text) × (truthy (config (codes "INTERNAL_API_KEY")) ≡ some key) × HasToken key)
  internal_can_activate-HasToken h = from_key (truthy (config (codes "INTERNAL_API_KEY"))) refl h
