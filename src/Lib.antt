-- ===== src/Lib.antt =====
-- A model of the gateway management service: HTTP handlers over a PostgreSQL pool, a worker that
-- applies the messages of IoT gateways, a processor that watches over the gateways' health, and the
-- circuit breaker and retry loop that guard outgoing calls.
--
-- The parts, and where they are modelled:
--   Reliability/Breaker: internal/reliability/breaker.go. `CircuitBreaker` is a record, its two
--     critical sections are `admit` and `settle`, `Do` on one caller's behalf is `call`. Concurrent
--     callers are a step relation on a breaker and the number of functions under way.
--   Reliability/Retry: internal/reliability/retry.go. `DoWithRetry` is `do_with_retry`, over a
--     world on which the function, the clock, the random numbers and the waits act.
--   EdgeHealth: applications/edgehealth/processor.go. The two maps of `HealthProcessor` are
--     association lists. `check_gateway_health` is a check that runs alone; Threads has the
--     goroutines of `processHealthChecks` step by step, with the RWMutex, and the map reads that
--     the source does without it. Loop has the rounds of `Start` until a `Stop`, Cache the cache as
--     its readers see it, in no order.
--   MessageProcessor: applications/messageprocessor/worker.go. One function per handler, over a
--     world and an abstract pool (`Services`); a statement of SQL is a constructor that carries the
--     statement's arguments in order. Queue has the buffered channel between EnqueueMessage and
--     the loop of Start.
--   Models, Http, Endpoints: internal/models/gateway.go and internal/endpoints. A handler takes a
--     request and a world and gives the response that it writes; the package's gateway cache is
--     passed along as state.
--   Api: internal/api/server.go. Limiter has the token buckets of `withRateLimit`; Router joins the
--     handlers to the routes.
--   Migrate: cmd/migrate/main.go. `migrateUp` and `migrateDown` over an abstract database, for any
--     list of migrations; the loops are on the sorted list. Scripts has the two migrations, Command
--     `showStatus` and `main`.
--   Config: internal/config/config.go. `load` reads an environment given as a function.
--   Datastore: internal/datastore/postgres.go, over an abstract driver.
--   Seed: cmd/seed/main.go. Rows has the test data, Seed the transaction that stores it,
--     Command `main`.
--   Process: how the programs under cmd end. Serve: cmd/server/main.go, internal/observability and
--     NewServer, over abstract servers of HTTP and tracing.
--   Cli: cmd/cli/worker_load.go. The made-up messages with their identifiers, and one tick of the
--     producer; the draws and the clock are parameters. Run has the loop of `runWorkerLoadImpl`
--     beside the worker, Command what is around it, and cmd/cli/main.go.
--   Prelude, Floats: the shared helpers, the machine integers and the float operations. Tests has
--     the runs on concrete inputs.
--
-- Numbers: `int` and `time.Duration` are the ℤ of the Prelude, `inc64` wraps at 2^63, and `since`
-- holds a difference of times to the range of a duration, as `time.Since` does. A point in time is a
-- natural number of nanoseconds. Floats are operations without laws; a theorem that needs a law has
-- it as a hypothesis.
--
-- Fuel: the loop of `DoWithRetry` runs on fuel, as many rounds as the effective MaxAttempts, which
-- is positive: in the last of them the source's own test of the attempts returns. The other loops
-- are structural.
--
-- Taken as parameters: the database driver (pgx), the clock, the random numbers, the environment,
-- time.Parse, strconv, flag, encoding/json, the decimal format of numbers, the HTTP server, the
-- page of expvar, the tracing exporter, and the delivery of a request to its route. A panic, a closed request body and an answer that cannot be written are not
-- modelled.
--
-- The interleavings take a map access for one atomic step, also the two reads that the source does
-- without the lock. Go's runtime may instead stop the program when such a read meets a write.
--
-- Not modelled: the logging and tracing calls everywhere, which set up and call third-party
-- libraries; the tickers behind the rounds of health checks and of the load, so that a tick may come
-- whenever the loop waits; the parsing of flags.
pub mod Prelude
pub mod Floats
pub mod Models
pub mod Reliability
pub mod EdgeHealth
pub mod MessageProcessor
pub mod Http
pub mod Endpoints
pub mod Api
pub mod Migrate
pub mod Cli
pub mod Config
pub mod Datastore
pub mod Seed
pub mod Process
pub mod Serve
pub mod Tests
