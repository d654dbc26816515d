-- ===== src/Examples/Start.antt =====
-- An environment of production, and a request to an internal route in it.
use pureplay_analytics_inges.Prelude.{
  ◌≤◌, ◌≡◌, refl, Option, true, false, none, some, ◌++◌, Text, codes, text_eq, truthy, ℤ, pos,
  length, if◌then◌else◌,
}
use pureplay_analytics_inges.Platform.Sample.{plain}
use pureplay_analytics_inges.Auth.{
  Request, Config, hmac_mode, allowed, internal_can_activate, check_bearer, bearer, same_bytes,
}
use pureplay_analytics_inges.Auth.Bearer.{HasToken}
use pureplay_analytics_inges.Environment.{
  Env, production, validate, parse_credentials, parse_settings, refinement_issues,
  production_issues, mode_issues,
}
use pureplay_analytics_inges.Environment.Production.{IsGuarded, validate-IsGuarded}
use pureplay_analytics_inges.Environment.Guards.{internal_can_activate-validate}
use pureplay_analytics_inges.Examples.Vendors.{clear_text, clear_text-IsSafe}

abbrev long_secret : Text
long_secret = codes "0123456789abcdef0123456789abcdef"

abbrev variables : Config
variables name =
    if text_eq name (codes "NODE_ENV")
    then some (codes "production")
    else if text_eq name (codes "DATABASE_URL")
    then some (codes "d")
    else if text_eq name (codes "REDIS_URL")
    then some (codes "r")
    else if text_eq name (codes "WEBHOOK_AUTH_MODE")
    then some (codes "hmac")
    else if text_eq name (codes "PROSWING_HMAC_SECRET")
    then some long_secret
    else if text_eq name (codes "INTERNAL_API_KEY")
    then some long_secret
    else if text_eq name (codes "CORS_ORIGIN")
    then some (codes "https://app.example.com")
    else none

abbrev ones : Text → Option ℤ
ones t = some (pos 1)

abbrev environment : Env
environment = record {
  credentials = record {
    trackpro_api_key = none;
    swingmetric_api_key = none;
    proswing_api_key = none;
    trackpro_hmac_secret = none;
    swingmetric_hmac_secret = none;
    proswing_hmac_secret = some long_secret;
    internal_api_key = some long_secret;
  };
  settings = record {
    node_env = production;
    database_url = codes "d";
    redis_url = codes "r";
    port = pos 3000;
    webhook_auth_mode = hmac_mode;
    queue_name = codes "shot-ingestion";
    max_queue_depth = pos 10000;
    worker_concurrency = pos 16;
    run_migrations = false;
    otel_service_name = codes "pureplay-analytics-ingest";
    otel_exporter_otlp_endpoint = none;
    db_pool_max = pos 20;
    cors_origin = codes "https://app.example.com";
    throttle_enabled = true;
  };
}

starts : validate ones variables ≡ some environment
unfolding validate parse_credentials parse_settings refinement_issues production_issues mode_issues
    text_eq truthy
starts = refl

validate-IsGuarded_example : IsGuarded environment
validate-IsGuarded_example = validate-IsGuarded ones variables environment starts refl

abbrev bearer_request : Request
bearer_request = record {
  handler_vendor = none;
  class_vendor = none;
  header = λ name.
      if text_eq name (codes "authorization") then some (codes "Bearer " ++ long_secret) else none;
  raw_body = none;
}

let_in : internal_can_activate clear_text variables bearer_request ≡ allowed
unfolding internal_can_activate check_bearer bearer truthy same_bytes text_eq
let_in = refl

internal_can_activate-validate_example :
    (key : Text) × (32 ≤ length key)
    × HasToken clear_text clear_text-IsSafe variables bearer_request key
unfolding text_eq
internal_can_activate-validate_example =
    internal_can_activate-validate clear_text clear_text-IsSafe variables bearer_request ones
      variables environment starts refl refl let_in
