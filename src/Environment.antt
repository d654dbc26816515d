-- ===== src/Environment.antt =====
-- src/config/env.schema.ts: what `validate` accepts and makes of the environment.
pub mod Production
pub mod Guards
use pureplay_analytics_inges.Prelude.{
  ℕ, Bool, true, false, not, ◌&&◌, Option, none, some, List, [], ◌∷◌, ◌++◌, Text, codes, text_eq,
  is_empty, truthy, ℤ, pos, leb_ℤ, leb, ltb, length, any, or_else, if◌then◌else◌,
}
use pureplay_analytics_inges.Auth.{Config, Mode, open_mode, hmac_mode, api_key_mode}

pub data NodeEnv : Type 0 where
  development production test : NodeEnv

pub record Credentials : Type 0 where
  pub trackpro_api_key : Option Text
  pub swingmetric_api_key : Option Text
  pub proswing_api_key : Option Text
  pub trackpro_hmac_secret : Option Text
  pub swingmetric_hmac_secret : Option Text
  pub proswing_hmac_secret : Option Text
  pub internal_api_key : Option Text

pub record Settings : Type 0 where
  pub node_env : NodeEnv
  pub database_url : Text
  pub redis_url : Text
  pub port : ℤ
  pub webhook_auth_mode : Mode
  pub queue_name : Text
  pub max_queue_depth : ℤ
  pub worker_concurrency : ℤ
  pub run_migrations : Bool
  pub otel_service_name : Text
  pub otel_exporter_otlp_endpoint : Option Text
  pub db_pool_max : ℤ
  pub cors_origin : Text
  pub throttle_enabled : Bool

-- `Env`, with its secrets apart.
pub record Env : Type 0 where
  pub credentials : Credentials
  pub settings : Settings

module _ {A B : Type 0} where
  infixl 1 ◌>>=◌
  abbrev pub ◌>>=◌ : Option A → (A → Option B) → Option B
  (none >>= f) = none
  (some a >>= f) = f a

-- The parsers of a member that may be missing: `none` is an issue.
abbrev pub text_min : ℕ → Text → Option Text
text_min n t = if leb n (length t) then some t else none

abbrev pub optional_text : ℕ → Option Text → Option (Option Text)
optional_text n none = some none
optional_text n (some t) = if leb n (length t) then some (some t) else none

abbrev pub required_text : Option Text → Option Text
required_text none = none
required_text (some t) = text_min 1 t

abbrev pub default_text : ℕ → Text → Option Text → Option Text
default_text n default none = some default
default_text n default (some t) = text_min n t

abbrev pub at_most : Option ℤ → ℤ → Bool
at_most none n = true
at_most (some high) n = leb_ℤ n high

-- `z.coerce.number().int().min(1).max(high).default(default)`, where `number` gives the integer that
-- `Number(text)` is, and `none` if it is not one.
abbrev pub default_number : (Text → Option ℤ) → Option ℤ → ℤ → Option Text → Option ℤ
default_number number high default none = some default
default_number number high default (some t) =
    number t >>= λ n. if leb_ℤ (pos 1) n && at_most high n then some n else none

abbrev pub one_of : {A : Type 0} → List (Text × A) → Text → Option A
one_of [] t = none
one_of ((name, a) ∷ names) t = if text_eq name t then some a else one_of names t

abbrev pub default_one_of : {A : Type 0} → List (Text × A) → A → Option Text → Option A
default_one_of names default none = some default
default_one_of names default (some t) = one_of names t

abbrev pub flags : List (Text × Bool)
flags = (codes "true", true) ∷ (codes "false", false) ∷ []

unfoldable pub parse_credentials : Config → Option Credentials
parse_credentials raw = optional_text 1 (raw (codes "TRACKPRO_API_KEY")) >>= λ trackpro_key.
    optional_text 1 (raw (codes "SWINGMETRIC_API_KEY")) >>= λ swingmetric_key.
    optional_text 1 (raw (codes "PROSWING_API_KEY")) >>= λ proswing_key.
    optional_text 1 (raw (codes "TRACKPRO_HMAC_SECRET")) >>= λ trackpro_secret.
    optional_text 1 (raw (codes "SWINGMETRIC_HMAC_SECRET")) >>= λ swingmetric_secret.
    optional_text 1 (raw (codes "PROSWING_HMAC_SECRET")) >>= λ proswing_secret.
    optional_text 32 (raw (codes "INTERNAL_API_KEY")) >>= λ internal_key. some (record {
      trackpro_api_key = trackpro_key;
      swingmetric_api_key = swingmetric_key;
      proswing_api_key = proswing_key;
      trackpro_hmac_secret = trackpro_secret;
      swingmetric_hmac_secret = swingmetric_secret;
      proswing_hmac_secret = proswing_secret;
      internal_api_key = internal_key;
    })

abbrev pub node_envs : List (Text × NodeEnv)
node_envs =
    (codes "development", development)
    ∷ (codes "production", production)
    ∷ (codes "test", test)
    ∷ []

abbrev pub modes : List (Text × Mode)
modes = (codes "none", open_mode) ∷ (codes "api_key", api_key_mode) ∷ (codes "hmac", hmac_mode) ∷ []

unfoldable pub parse_settings : (Text → Option ℤ) → Config → Option Settings
parse_settings number raw =
    default_one_of node_envs development (raw (codes "NODE_ENV")) >>= λ node_env.
    required_text (raw (codes "DATABASE_URL")) >>= λ database_url.
    required_text (raw (codes "REDIS_URL")) >>= λ redis_url.
    default_number number (some (pos 65535)) (pos 3000) (raw (codes "PORT")) >>= λ port.
    default_one_of modes open_mode (raw (codes "WEBHOOK_AUTH_MODE")) >>= λ mode.
    default_text 1 (codes "shot-ingestion") (raw (codes "QUEUE_NAME")) >>= λ queue_name.
    default_number number none (pos 10000) (raw (codes "MAX_QUEUE_DEPTH")) >>= λ depth.
    default_number number (some (pos 64)) (pos 16) (raw (codes "WORKER_CONCURRENCY"))
    >>= λ concurrency. default_one_of flags false (raw (codes "RUN_MIGRATIONS")) >>= λ run.
        default_number number (some (pos 100)) (pos 20) (raw (codes "DB_POOL_MAX")) >>= λ pool.
        default_one_of flags true (raw (codes "THROTTLE_ENABLED")) >>= λ throttle. some (record {
          node_env = node_env;
          database_url = database_url;
          redis_url = redis_url;
          port = port;
          webhook_auth_mode = mode;
          queue_name = queue_name;
          max_queue_depth = depth;
          worker_concurrency = concurrency;
          run_migrations = run;
          otel_service_name =
              or_else (raw (codes "OTEL_SERVICE_NAME")) (codes "pureplay-analytics-ingest");
          otel_exporter_otlp_endpoint = raw (codes "OTEL_EXPORTER_OTLP_ENDPOINT");
          db_pool_max = pool;
          cors_origin = or_else (raw (codes "CORS_ORIGIN")) (codes "*");
          throttle_enabled = throttle;
        })

-- The paths of the issues that `superRefine` adds for the secrets of a mode.
abbrev pub is_short : Option Text → Bool
is_short none = false
is_short (some t) = ltb (length t) 32

abbrev pub is_set : Option Text → Bool
is_set o = elim (truthy o) [ none ↦ false | some t ↦ true ]

abbrev pub short_secrets : List (Text × Option Text) → List Text
short_secrets [] = []
short_secrets ((name, secret) ∷ secrets) =
    if is_short secret then name ∷ short_secrets secrets else short_secrets secrets

abbrev pub secret_issues : List (Text × Option Text) → List Text
secret_issues secrets =
    (if any (λ (name, secret). is_set secret) secrets then [] else codes "WEBHOOK_AUTH_MODE" ∷ [])
    ++ short_secrets secrets

abbrev pub api_keys : Credentials → List (Text × Option Text)
api_keys c =
    (codes "TRACKPRO_API_KEY", c.trackpro_api_key)
    ∷ (codes "SWINGMETRIC_API_KEY", c.swingmetric_api_key)
    ∷ (codes "PROSWING_API_KEY", c.proswing_api_key)
    ∷ []

abbrev pub hmac_secrets : Credentials → List (Text × Option Text)
hmac_secrets c =
    (codes "TRACKPRO_HMAC_SECRET", c.trackpro_hmac_secret)
    ∷ (codes "SWINGMETRIC_HMAC_SECRET", c.swingmetric_hmac_secret)
    ∷ (codes "PROSWING_HMAC_SECRET", c.proswing_hmac_secret)
    ∷ []

unfoldable pub mode_issues : Mode → Credentials → List Text
mode_issues open_mode c = codes "WEBHOOK_AUTH_MODE" ∷ []
mode_issues api_key_mode c = secret_issues (api_keys c)
mode_issues hmac_mode c = secret_issues (hmac_secrets c)

abbrev pub issue_if : Bool → Text → List Text
issue_if b name = if b then name ∷ [] else []

unfoldable pub production_issues : Env → List Text
production_issues env =
    mode_issues env.settings.webhook_auth_mode env.credentials
    ++ issue_if (not env.settings.throttle_enabled) (codes "THROTTLE_ENABLED")
    ++ issue_if (not (is_set env.credentials.internal_api_key)) (codes "INTERNAL_API_KEY")
    ++ issue_if (text_eq env.settings.cors_origin (codes "*")) (codes "CORS_ORIGIN")

unfoldable pub refinement_issues : Env → List Text
refinement_issues env = elim env.settings.node_env [ production ↦ production_issues env | _ ↦ [] ]

abbrev pub accepted_if : {A : Type 0} → List Text → A → Option A
accepted_if [] a = some a
accepted_if (issue ∷ issues) a = none

-- `none` is the error that keeps the process from starting.
unfoldable pub validate : (Text → Option ℤ) → Config → Option Env
validate number raw = parse_credentials raw >>= λ credentials.
    parse_settings number raw >>= λ settings.
    let env : Env = record { credentials = credentials; settings = settings } in
    accepted_if (refinement_issues env) env
