-- ===== src/Idempotency.antt =====
-- src/shared/idempotency/idempotency.interceptor.ts, in front of a route handler.
pub mod Replay
use pureplay_analytics_inges.Prelude.{
  ℕ, Bool, true, false, ◌&&◌, Option, none, some, List, [], ◌∷◌, ◌++◌, Text, codes, text_eq, truthy,
  leb, ltb, length, if◌then◌else◌,
}

-- `CachedResponse`, which is also what a handler answers.
pub record Response (B : Type 0) : Type 0 where
  pub status : ℕ
  pub body : B

pub data Reply (B E : Type 0) : Type 0 where
  answered : Response B → Reply B E
  failed : E → Reply B E
  key_too_long : Reply B E

-- JSON.stringify of a cached response, and JSON.parse, which is `none` if it throws.
pub record Codec (B : Type 0) : Type 0 where
  pub stringify : Response B → Text
  pub parse : Text → Option (Response B)

-- A request with the path of its URL, and whether Redis answers its GET and its SET.
pub record Request : Type 0 where
  pub idempotency_key : Option Text
  pub pathname : Text
  pub reads : Bool
  pub writes : Bool

-- What GET returns for each key now.
abbrev pub Entries : Type 0
Entries = Text → Option Text

abbrev pub max_idempotency_key_length : ℕ
max_idempotency_key_length = 128

unfoldable pub build_cache_key : Text → Text → Text
build_cache_key key path = codes "idempotency:" ++ (path ++ (codes ":" ++ key))

abbrev pub set_entry : Text → Text → Entries → Entries
set_entry key value entries k = if text_eq key k then some value else entries k

abbrev pub is_success : ℕ → Bool
is_success status = leb 200 status && ltb status 300

module _ {B E S : Type 0} (codec : Codec B) where
  -- `tap` on what the handler has answered.
  abbrev pub cache_reply : Bool → Text → Entries → Reply B E × S → Reply B E × Entries × S
  cache_reply writes cache_key entries (answered r, s) = (
    answered r,
    if writes && is_success r.status
        then set_entry cache_key (codec.stringify r) entries
        else entries,
    s,
  )
  cache_reply writes cache_key entries (failed e, s) = (failed e, entries, s)
  cache_reply writes cache_key entries (key_too_long, s) = (key_too_long, entries, s)

  unfoldable pub execute_and_cache :
      Bool → Text → (S → Reply B E × S) → Entries → S → Reply B E × Entries × S
  execute_and_cache writes cache_key handler entries s =
      cache_reply writes cache_key entries (handler s)

  abbrev pub pass_through : (S → Reply B E × S) → Entries → S → Reply B E × Entries × S
  pass_through handler entries s = ((handler s).0, entries, (handler s).1)

  -- What is done with the text of a hit: one that JSON.parse throws on is a miss.
  abbrev pub after_parse :
      Bool
      → Text
      → (S → Reply B E × S)
      → Entries
      → S
      → Option (Response B)
      → Reply B E × Entries × S
  after_parse writes cache_key handler entries s none =
      execute_and_cache writes cache_key handler entries s
  after_parse writes cache_key handler entries s (some r) = (answered r, entries, s)

  -- What is done with what GET has returned.
  abbrev pub after_get :
      Bool → Text → (S → Reply B E × S) → Entries → S → Option Text → Reply B E × Entries × S
  after_get writes cache_key handler entries s none =
      execute_and_cache writes cache_key handler entries s
  after_get writes cache_key handler entries s (some cached) =
      after_parse writes cache_key handler entries s (codec.parse cached)

  abbrev pub with_key :
      Request → (S → Reply B E × S) → Entries → S → Option Text → Reply B E × Entries × S
  with_key request handler entries s none = pass_through handler entries s
  with_key request handler entries s (some key) =
      let cache_key = build_cache_key key request.pathname in
      if ltb max_idempotency_key_length (length key)
      then (key_too_long, entries, s)
      else if request.reads
      then after_get request.writes cache_key handler entries s (entries cache_key)
      else pass_through handler entries s

  unfoldable pub intercept : Request → (S → Reply B E × S) → Entries → S → Reply B E × Entries × S
  intercept request handler entries s =
      with_key request handler entries s (truthy request.idempotency_key)

-- Requests one after the other, each with its handler, and the state behind them.
pub record Call (B E S : Type 0) : Type 0 where
  pub request : Request
  pub handler : S → Reply B E × S

module _ {B E S : Type 0} (codec : Codec B) where
  unfoldable pub run_all : List (Call B E S) → Entries → S → Entries × S
  run_all [] entries s = (entries, s)
  run_all (call ∷ calls) entries s =
      let (_, entries', s') = intercept codec call.request call.handler entries s in
      run_all calls entries' s'
