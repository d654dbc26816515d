-- ===== src/World.antt =====
-- The state that the API process, the workers and the publisher share: the database, the content of
-- Redis, and the counters of src/shared/metrics/ingest-metrics.ts as the list of their increments.
use pureplay_analytics_inges.Prelude.{
  Option, none, some, List, [], ◌∷◌, ◌++◌, Text, text_eq, any, if◌then◌else◌,
}
use pureplay_analytics_inges.Database.{Database, IdentityRow}

-- A value of Redis: a text, or the JSON text of a list of identities, given by that list.
pub data CacheValue : Type 0 where
  text : Text → CacheValue
  identities : List IdentityRow → CacheValue

-- What GET returns for each key now. An entry that has expired is `none`.
abbrev pub Cache : Type 0
Cache = Text → Option CacheValue

abbrev pub cache_set : Text → CacheValue → Cache → Cache
cache_set key value cache k = if text_eq key k then some value else cache k

-- DEL of several keys; also what the expiry of them does.
abbrev pub cache_del : List Text → Cache → Cache
cache_del keys cache k = if any (λ key. text_eq key k) keys then none else cache k

pub data Outcome : Type 0 where
  rejected_clock duplicate_exact duplicate_near accepted failed : Outcome

pub data Metric : Type 0 where
  shots_total : Text → Outcome → Text → Metric
  near_duplicates : Text → Metric
  jobs_failed : Text → Metric
  e2e_lag : Text → Metric

pub record World (N : Type 0) : Type 0 where
  pub db : Database N
  pub redis : Cache
  pub metrics : List Metric

module _ {N : Type 0} where
  abbrev pub inc : Metric → World N → World N
  inc m w = record w { metrics = w.metrics ++ m ∷ [] }
