-- ===== src/Environment/Production.antt =====
-- src/config/env.schema.ts: an environment that is accepted in production.
use mathlib.Core.Path.{subst}
use pureplay_analytics_inges.Prelude.{
  ℕ, ◌≤◌, ◌≡◌, ◌≢◌, refl, sym, ◌∙◌, inl, inr, Bool, true, false, not, Option, none, some, List, [],
  ◌∷◌, ◌++◌, Text, codes, text_eq, text_eq_iff, truthy, ℤ, length, any, All, arith, Bool-cases,
  if◌then◌else◌,
}
use pureplay_analytics_inges.Auth.{Config, Mode, open_mode, hmac_mode, api_key_mode}
use pureplay_analytics_inges.Environment.{
  Env, Credentials, Settings, production, ◌>>=◌, optional_text, parse_credentials, parse_settings,
  validate, production_issues, refinement_issues, mode_issues, secret_issues, short_secrets,
  issue_if, is_set, is_short, api_keys, hmac_secrets, accepted_if,
}

bind-some :
    {A B : Type 0} (o : Option A) (f : A → Option B) (b : B)
    → (o >>= f) ≡ some b
    → (a : A) × (o ≡ some a) × (f a ≡ some b)
bind-some none f b h = cc
bind-some (some a) f b h = (a, refl, h)

append-nil_both : {A : Type 0} (xs ys : List A) → xs ++ ys ≡ [] → (xs ≡ []) × (ys ≡ [])
append-nil_both [] ys h = (refl, h)
append-nil_both (x ∷ xs) ys h = cc

issue_if-nil : (b : Bool) (name : Text) → issue_if b name ≡ [] → b ≡ false
issue_if-nil b name h = ground arith

optional_text-long :
    (n : ℕ) (o : Option Text) (t : Text) → optional_text n o ≡ some (some t) → n ≤ length t
optional_text-long n none t h = cc
optional_text-long n (some u) t h = ground arith

parse_credentials-long :
    (raw : Config) (c : Credentials) (key : Text)
    → parse_credentials raw ≡ some c
    → c.internal_api_key ≡ some key
    → 32 ≤ length key
unfolding parse_credentials
parse_credentials-long raw c key h k =
    ground (arith, optional_text-long 32 (raw (codes "INTERNAL_API_KEY")) key)

-- The secrets that the requests of the webhooks are checked against.
abbrev pub secrets_of : Mode → Credentials → List (Text × Option Text)
secrets_of open_mode c = []
secrets_of hmac_mode c = hmac_secrets c
secrets_of api_key_mode c = api_keys c

abbrev pub IsLong : Option Text → Type 0
IsLong none = Unit
IsLong (some t) = 32 ≤ length t

abbrev pub AreLong : List (Text × Option Text) → Type 0
AreLong = All (λ (name, secret). IsLong secret)

pub record IsGuarded (env : Env) : Type 0 where
  pub has_mode : env.settings.webhook_auth_mode ≢ open_mode
  pub has_secret :
      any
        (λ (name, secret). is_set secret)
        (secrets_of env.settings.webhook_auth_mode env.credentials)
      ≡ true
  pub has_long_secrets : AreLong (secrets_of env.settings.webhook_auth_mode env.credentials)
  pub has_throttle : env.settings.throttle_enabled ≡ true
  pub has_key : (key : Text) × (env.credentials.internal_api_key ≡ some key) × (32 ≤ length key)
  pub has_origin : env.settings.cors_origin ≢ codes "*"

short_secrets-nil :
    (secrets : List (Text × Option Text)) → short_secrets secrets ≡ [] → AreLong secrets
short_secrets-nil [] h = tt
short_secrets-nil ((name, secret) ∷ secrets) h = elim (Bool-cases (is_short secret)) [
  | inl e ↦ absurd (cons-ne-nil (rw e at h))
  | inr e ↦ (long secret e, short_secrets-nil secrets (rw e at h))
]
  where
    cons-ne-nil : name ∷ short_secrets secrets ≡ [] → ⊥
    cons-ne-nil q = cc

    long : (o : Option Text) → is_short o ≡ false → IsLong o
    long none e = tt
    long (some t) e = ground arith

secret_issues-nil :
    (secrets : List (Text × Option Text))
    → secret_issues secrets ≡ []
    → (any (λ (name, secret). is_set secret) secrets ≡ true) × AreLong secrets
secret_issues-nil secrets h =
    let (one, long) =
      append-nil_both
        (if any (λ (name, secret). is_set secret) secrets
          then []
          else codes "WEBHOOK_AUTH_MODE" ∷ [])
        (short_secrets secrets) h in
    (ground arith, short_secrets-nil secrets long)

mode_issues-nil :
    (mode : Mode) (c : Credentials)
    → mode_issues mode c ≡ []
    → (mode ≢ open_mode)
      × (any (λ (name, secret). is_set secret) (secrets_of mode c) ≡ true)
      × AreLong (secrets_of mode c)
unfolding mode_issues
mode_issues-nil open_mode c h = cc
mode_issues-nil hmac_mode c h =
    let (one, long) = secret_issues-nil (hmac_secrets c) h in ((λ e. cc), one, long)
mode_issues-nil api_key_mode c h =
    let (one, long) = secret_issues-nil (api_keys c) h in ((λ e. cc), one, long)

is_set-some : (o : Option Text) → is_set o ≡ true → (t : Text) × (o ≡ some t)
unfolding truthy
is_set-some none h = absurd (false-ne-true h)
  where
    false-ne-true : is_set none ≡ true → ⊥
    false-ne-true g = cc
is_set-some (some t) h = (t, refl)

production_issues-nil :
    (raw : Config) (env : Env)
    → parse_credentials raw ≡ some env.credentials
    → production_issues env ≡ []
    → IsGuarded env
unfolding production_issues
production_issues-nil raw env p h =
    let modes = mode_issues env.settings.webhook_auth_mode env.credentials in
    let throttles = issue_if (not env.settings.throttle_enabled) (codes "THROTTLE_ENABLED") in
    let keys =
      issue_if (not (is_set env.credentials.internal_api_key)) (codes "INTERNAL_API_KEY") in
    let origins = issue_if (text_eq env.settings.cors_origin (codes "*")) (codes "CORS_ORIGIN") in
    let (h1, origin) = append-nil_both (modes ++ throttles ++ keys) origins h in
    let (h2, internal) = append-nil_both (modes ++ throttles) keys h1 in
    let (mode, throttle) = append-nil_both modes throttles h2 in
    let (has_mode, has_secret, long) =
      mode_issues-nil env.settings.webhook_auth_mode env.credentials mode in
    let (key, is_key) =
      is_set-some env.credentials.internal_api_key
        (not-false _ (issue_if-nil (not (is_set env.credentials.internal_api_key)) _ internal)) in
    record {
      has_mode = has_mode;
      has_secret = has_secret;
      has_long_secrets = long;
      has_throttle = not-false _ (issue_if-nil (not env.settings.throttle_enabled) _ throttle);
      has_key = (key, is_key, parse_credentials-long raw env.credentials key p is_key);
      has_origin = λ e. true-ne-false (sym ((text_eq_iff _ _).1 e) ∙ issue_if-nil _ _ origin);
    }
  where
    not-false : (b : Bool) → not b ≡ false → b ≡ true
    not-false b g = ground arith

    true-ne-false : true ≡ false → ⊥
    true-ne-false g = cc

accepted_if-some :
    {A : Type 0} (issues : List Text) (a b : A)
    → accepted_if issues a ≡ some b
    → (issues ≡ []) × (a ≡ b)
accepted_if-some [] a b h = (refl, cc)
accepted_if-some (issue ∷ issues) a b h = cc

validate-parsed :
    (number : Text → Option ℤ) (raw : Config) (env : Env)
    → validate number raw ≡ some env
    → (parse_credentials raw ≡ some env.credentials) × (refinement_issues env ≡ [])
unfolding validate
validate-parsed number raw env h =
    let env_of : Credentials → Settings → Env =
      λ credentials settings. record { credentials = credentials; settings = settings } in
    let accept : Credentials → Settings → Option Env =
      λ c s. accepted_if (refinement_issues (env_of c s)) (env_of c s) in
    let (c, is_credentials, h1) =
      bind-some (parse_credentials raw) (λ c. parse_settings number raw >>= accept c) env h in
    let (s, _, h2) = bind-some (parse_settings number raw) (accept c) env h1 in
    let (none_left, same) = accepted_if-some (refinement_issues (env_of c s)) (env_of c s) env h2 in
    subst (λ e. (parse_credentials raw ≡ some e.credentials) × (refinement_issues e ≡ [])) same
      (is_credentials, none_left)

-- An environment that `validate` accepts in production has a webhook mode other than "none", at
-- least one secret of that mode, none of them shorter than 32 code units, an internal key of at
-- least 32, the throttlers on, and a CORS origin other than "*".
pub validate-IsGuarded :
    (number : Text → Option ℤ) (raw : Config) (env : Env)
    → validate number raw ≡ some env
    → env.settings.node_env ≡ production
    → IsGuarded env
unfolding refinement_issues production_issues
validate-IsGuarded number raw env h k =
    let (parsed, none_left) = validate-parsed number raw env h in
    production_issues-nil raw env parsed (rw k at none_left)
