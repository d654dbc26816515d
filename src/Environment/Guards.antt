-- ===== src/Environment/Guards.antt =====
-- The guards of src/shared/auth/ over an environment that src/config/env.schema.ts accepts in
-- production.
use mathlib.Core.Path.{subst}
use pureplay_analytics_inges.Prelude.{
  some-injective, ◌≤◌, ◌≡◌, refl, sym, ◌∙◌, ◌⊎◌, inl, inr, Option, none, some, [], ◌∷◌, Text, codes,
  truthy, ℤ, length, arith,
}
use pureplay_analytics_inges.Platform.{Platform}
use pureplay_analytics_inges.Auth.{Config, Crypto, IsSafe, Request, allowed, internal_can_activate}
use pureplay_analytics_inges.Auth.Bearer.{HasToken, internal_can_activate-HasToken}
use pureplay_analytics_inges.Environment.{Env, production, validate}
use pureplay_analytics_inges.Environment.Production.{validate-IsGuarded}

module _ (c : Crypto) (safe : IsSafe c) ⦃p : Platform⦄ (config : Config) (req : Request) where
  key_in_force :
      (given : Option Text) (key : Text)
      → config (codes "INTERNAL_API_KEY") ≡ given
      → given ≡ some key
      → 32 ≤ length key
      → truthy (config (codes "INTERNAL_API_KEY")) ≡ some key
  unfolding truthy
  key_in_force given key g is_key long = rw (g, is_key) (present key long)
    where
      present : (t : Text) → 32 ≤ length t → truthy (some t) ≡ some t
      present [] l = absurd (omega arith)
      present (u ∷ t) l = refl

  by_key :
      (key : Text)
      → 32 ≤ length key
      → truthy (config (codes "INTERNAL_API_KEY")) ≡ some key
      → (truthy (config (codes "INTERNAL_API_KEY")) ≡ none)
        ⊎ ((k : Text) × (truthy (config (codes "INTERNAL_API_KEY")) ≡ some k)
            × HasToken c safe config req k)
      → (k : Text) × (32 ≤ length k) × HasToken c safe config req k
  by_key key l e (inl n) = absurd (none-ne-some (sym n ∙ e))
    where
      none-ne-some : ◌≡◌ {A = Option Text} none (some key) → ⊥
      none-ne-some q = cc
  by_key key l e (inr (k, is_k, token)) =
      (k, subst (λ t. 32 ≤ length t) (some-injective (sym e ∙ is_k)) l, token)

  -- In an environment that `validate` accepts in production, where the configuration gives the
  -- validated internal key, a request that the internal guard lets through has a bearer token
  -- with the bytes of a key of at least 32 code units. `timingSafeEqual` is assumed to accept
  -- buffers of one length only if they are equal.
  pub internal_can_activate-validate :
      (number : Text → Option ℤ) (raw : Config) (env : Env)
      → validate number raw ≡ some env
      → env.settings.node_env ≡ production
      → config (codes "INTERNAL_API_KEY") ≡ env.credentials.internal_api_key
      → internal_can_activate c config req ≡ allowed
      → (key : Text) × (32 ≤ length key) × HasToken c safe config req key
  internal_can_activate-validate number raw env h k g a =
      let (key, is_key, long) = (validate-IsGuarded number raw env h k).has_key in
      by_key key long (key_in_force env.credentials.internal_api_key key g is_key long)
        (internal_can_activate-HasToken c safe config req a)
