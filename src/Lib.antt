-- ===== src/Lib.antt =====
-- The shot ingest service: webhooks of three vendors of golf launch monitors, a queue, a worker that
-- stores shots once, an outbox of events, and the identities of the vendors' users.
--
-- How the parts work together. A webhook route runs the guard (Auth), validates and parses its
-- payload into normalised shots (Webhooks), and enqueues them (Ingestion/Queue). A worker takes a
-- job through the stages of Ingestion/Processor: the clock check, the canonical user (Identity), the
-- insertion of the shot together with its event, and the search for a near duplicate
-- (Ingestion/Repository). The publisher (Ingestion/Outbox) emits the events and deletes their rows.
--
-- Which file is about which code.
--   Domain/Shot, Domain/Club, Domain/Units: src/shared/domain/. `normaliseClub` is `normalise_club`,
--     with the lookup of a name that `Object.prototype` has as a value of its own.
--   Database: the row types of src/shared/kysely/types.ts and the constraints that the migration
--     migrations/001_init.sql puts on the insertion of a shot. A table is the list of its rows.
--   World: the database with the content of Redis and the list of the increments of the counters.
--   Ingestion/ContentHash, Ingestion/Redact: src/ingestion/content-hash.ts, src/shared/pii-redact.ts.
--   Ingestion/Repository: src/ingestion/shot-repository.ts, a function for each method.
--   Ingestion/Processor: src/ingestion/shot-ingestion.processor.ts, cut at the awaits of `process`.
--   Ingestion/Queue: src/ingestion/shot-ingestion.queue.ts over a BullMQ queue whose `add` may throw,
--     and the calls of it that src/webhooks/swingmetric/swingmetric.controller.ts makes for a batch.
--   Ingestion/Outbox: src/ingestion/outbox-publisher.service.ts.
--   Ingestion/Pipeline: all of these on one database, as a relation between states; Pipeline/Ledger is
--     what the tables and the events come to without rows, stages and retries.
--   Shots: src/shots/shots.service.ts, and the query that src/shots/shots.controller.ts makes.
--     Shots/Client is a client that follows the cursors.
--   Problems: src/shared/errors/domain-errors.ts and src/shared/global-exception.filter.ts, with what
--     is answered for the errors of the queries.
--   Stats: src/stats/stats.service.ts. Idempotency: src/shared/idempotency/, around any handler.
--   Environment: src/config/env.schema.ts. Migrations: src/shared/kysely/migration-runner.ts, with
--     Migrations/Pieces as the reference for the splitting.
--   Identity: src/identity/identity.service.ts and src/shared/audit/audit-log.service.ts.
--   Auth: src/shared/auth/webhook-auth.guard.ts and src/shared/auth/internal-api.guard.ts.
--   Webhooks/Proswing: src/webhooks/proswing/proswing.schema.ts and proswing.parser.ts.
--   Webhooks/Swingmetric, Webhooks/Trackpro: the parsers and schemas of src/webhooks/swingmetric/ and
--     src/webhooks/trackpro/, without the renaming of old member names.
--   Webhooks/Routes: the `receive` of the three controllers, from a validated payload to the queue.
--   Prelude, Database/Order and Platform carry what these share. Examples has the concrete runs.
--
-- How the code is represented. A text is the list of its UTF-16 code units. An instant is a number
-- of milliseconds since the epoch, where the code passes its ISO text; an instant's minute text is
-- read off through the platform. Doubles are an abstract type with the operations that the code
-- uses. A stateful operation takes the tables, or the world, and returns them. An operation that can
-- throw returns an Option, or an answer that is an error. A transaction that throws leaves no new
-- tables, so its writes are rolled back. A query passes the ISO texts of its window to the database,
-- which reads them or refuses the query. Redis is a function from keys to what GET returns now, so an
-- expiry is a step that may come at any time. What a listener does is only whether it throws.
--
-- What is a parameter: SHA-256, HMAC, UTF-8, `parseInt`, `timingSafeEqual`, the case tables of
-- Unicode, ISO texts, the reading of a date, the arithmetic and printing of doubles, JSON texts and
-- the replacement of e-mail addresses, BullMQ's queue, the next ULID, the cursors' base64url, the
-- collation of ids, what `Number` reads, and the driver that executes a statement. Each law about one
-- of them that a theorem uses stands in a record named for it.
--
-- Fuel. `process` runs four stages, which is what the longest way through the handler takes. The
-- client of Shots/Client has one unit for each request; one more than there are rows is enough.
--
-- What is not modelled: logging, HTTP plumbing and module wiring, which do not decide anything; the
-- histogram's values, which are times; the identity and statistics routes, and those of the shots
-- but for the query that they make. Requests with an Idempotency-Key do not overlap. An await is
-- the only place where workers, publishers and routes take turns, and a transaction is one step.
-- The calls of `enqueue` for a batch are made one after the other. Of the columns of the shots
-- table the CHECKs, the keys and the enum of clubs are modelled, not the lengths of texts. Redis
-- commands succeed, but for those of the idempotency interceptor, and the database answers. A lookup
-- of a canonical user with its cache is one step, so a race of it with a link is not seen.
pub mod Prelude
pub mod Platform
pub mod Domain
pub mod Database
pub mod Ingestion
pub mod World
pub mod Identity
pub mod Auth
pub mod Webhooks
pub mod Migrations
pub mod Environment
pub mod Idempotency
pub mod Shots
pub mod Stats
pub mod Problems
pub mod Examples
