-- ===== src/Lib.antt =====
-- A model of the Go API starter: accounts, tokens and sessions, roles and permissions, and the
-- handlers that guard the routes, with the theorems that make them correct.
--
-- The program is an HTTP server over PostgreSQL and Redis. A request passes the handlers of
-- internal/middleware that stand before every route, then the guards of its route, and a handler of
-- internal/modules, which calls a service, which calls its repositories. The model has this way from
-- the engine of internal/router to the tables, and the parts beside it: settings, migrations, file
-- storage, the writer of the logs and the load test.
--
-- Cache: `TokenCache` of internal/shared/utils/cache.go, the in-memory cache of validated claims, a
-- method for a function; Cache/Bounds, Cache/Reads and Cache/Eviction have its theorems.
-- Schema: the rows of the tables of internal/database/migrations, which the domain types of
-- internal/modules/*/domain mirror.
-- External: what the program calls and does not implement, as parameters: Redis, PostgreSQL's own
-- decisions (casts to inet, the widths of VARCHAR, ORDER BY), JWT signing and parsing, bcrypt, SHA-256
-- and UUIDs. The laws that a proof needs are records beside them, and External/Memory and
-- External/Example meet them with concrete functions.
-- World: the state (`World`: the clock, the tables, Redis and the cache) and the actions on it,
-- with Go's error returns. An error keeps what was done before it. World/Commands are the Redis
-- commands, World/Counters the counters kept with INCR and EXPIRE, World/Transactions the SQL
-- transactions, where a Commit that returns an error may have taken effect, and World/Actions,
-- World/Yields and World/Achieves the rules by which the proofs go through an action.
-- Auth: internal/modules/auth. Auth/Repository has the SQL statements (`user_repo.go`,
-- `session_repo.go` and those of the service), Auth/Tokens has internal/shared/utils/jwt.go and
-- `generateTokens`, Auth/Keys has `LoadKeys` of jwt.go, and Auth/Service has `Register`, `Login`,
-- `RefreshToken` and `Logout`. Auth/Rotation and Auth/Issue are about the tokens that they issue.
-- Admin: internal/modules/admin. Admin/Repository has the statements of its three repositories,
-- Admin/Paging the limits of their lists, and Admin/Service the service and `SeedDefaultAdmin`.
-- Admin/Seeding follows `SeedDefaultAdmin` through a new database.
-- Incident: internal/modules/incident, its repository and service.
-- Middleware: Middleware/Authentication is auth.go, Middleware/Permission is rbac.go,
-- Middleware/RateLimiter is rate_limiter.go and Middleware/Throttler is throttler.go of
-- internal/middleware. Middleware/RateLimiter/Races has the steps of overlapping requests.
-- Http: the handlers of internal/modules/*/handler (Http/AuthHandler, Http/AdminHandler,
-- Http/IncidentHandler), the routes with their guards (Http/Routes), and the engine of
-- internal/router/router.go with the headers, compression and logger.go (Http/Router). The
-- binding and validation of JSON and strconv.Atoi are the parameter `Gin`, and a request comes
-- with what gin makes of its path: a route, none, or a redirect of its own. Http/Guards,
-- Http/Access, Http/Statuses, Http/Answers, Http/BadRequests, Http/Chain and Http/Headers have
-- the theorems.
-- WorkerPool: internal/shared/utils/worker.go, as a relation of the steps that its goroutines take.
-- Config: internal/config/config.go, the settings that `Load` reads and completes.
-- Migrate: internal/database/migrate.go. What PostgreSQL makes of the text of a file, and where
-- the reading of rows breaks off, are parameters, and a Commit that fails is one that has changed
-- nothing; Migrate/Names has the versions and names of files and the rewriting of the texts.
-- Storage: internal/shared/storage, the interface, both backends and the choice between them, over a
-- file system that is a parameter with documented laws.
-- Logger: the daily writer and the cores of internal/shared/logger/logger.go, over a parameter for
-- files.
-- Startup: cmd/api/main.go up to the server that listens or fails on its port, from the settings
-- over the keys, the connections (Startup/Connections is internal/database/postgres.go and
-- redis.go), the migrations and the storage to the seed. pgx and go-redis are parameters, and so
-- is the reading of the migrated database as the rows of Schema.
-- LoadTest: cmd/loadtest/main.go. The metrics and their summary, in microseconds, with the places
-- of the percentiles computed with the rounding of float64, and the average and the rate rounded
-- down; the calls of the client (LoadTest/Client), the four workers (LoadTest/Workers,
-- LoadTest/Mixed) and `runScenario` (LoadTest/Scenario). The network, the URLs that
-- http.NewRequest accepts, the texts of numbers and the reading of JSON are the parameter
-- `Network`.
--
-- A SQL statement is a function on the tables, which fails as a whole by the connection
-- (`Env.fails` at the number of the call) or by a constraint of the migrations. A time is a number
-- of seconds, and the clock stands still within one request. A setting may be negative in Config,
-- where it is read, and is a natural number in Auth and Middleware. The loops of the load test run
-- until a time and take fuel: a round takes at least 50 ms, so one round more than fits the duration
-- is enough, as LoadTest/Termination shows. Every other loop is over a list, but that of a worker of
-- the pool, which is a sequence of steps. The requests of the model run one after the other, but
-- those of the rate limiter in Middleware/RateLimiter/Races.
--
-- Not modelled: in cmd/api/main.go what comes after the server is started (signals and the
-- shutdown of net/http), which is I/O of libraries, and the log lines of the start; the websocket
-- placeholders, which are empty; of the load test, the flags and the printing of `main`; the
-- wrappers around zap; the INSERT into activity_logs that a worker runs after the answer, on a
-- table that nothing reads; and the bytes that gzip makes of a body.
pub mod Prelude
pub mod Cache
pub mod Schema
pub mod Config
pub mod External
pub mod World
pub mod Auth
pub mod Middleware
pub mod Admin
pub mod WorkerPool
pub mod Http
pub mod Incident
pub mod Migrate
pub mod Storage
pub mod LoadTest
pub mod Logger
pub mod Startup
