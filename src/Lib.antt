-- ===== src/Lib.antt =====
-- A verification of aeternixth-go-lib, the Go library that a group of services shares.
--
-- Parts, by file here and by source:
--   Errors, Errors/*       errors/error.go and errors/translation.go: AppError, the registry of HTTP
--                          statuses, Accept-Language negotiation, message templates.
--   Web                    what the handlers see of Fiber: requests, replies, returns and panics.
--   Response               response/response.go: the builders of replies.
--   Middleware, */Laws     middleware/error_handler.go: ErrorHandler, RecoverMiddleware,
--                          NotFoundHandler. They classify errors as Errors declares them, and send
--                          the replies of Response; what they log is a list of lines.
--                          Middleware/Served puts the first two around a handler.
--   Middleware/Jwt         middleware/jwt_middleware.go: JWTMiddleware and OptionalJWTMiddleware, over
--                          the token service of Jwt and over the next handler; Middleware/Jwt/Session
--                          follows a login to its requests.
--   Jwt                    jwt/jwt.go: GenerateToken and ValidateToken over golang-jwt.
--   Ratelimit              ratelimit/ratelimit.go: Allow, Reset and cleanup. Ratelimit/Sequential runs
--                          them one after the other, Ratelimit/Concurrent as a step relation in which
--                          each access of the sync.Map is one step, with Winner on who is allowed.
--                          Ratelimit/Refinement has the abstract
--                          limiter, Ratelimit/Memory what is left after a cleanup.
--   Health, Health/*       observability/health: runChecks of internal/core/core.go over every order in
--                          which its goroutines can end, the handlers of handlers.go, server.go and
--                          healthfiber/healthfiber.go, the Kafka pinger of healthkafka, and in
--                          Health/Pingers those of healthgorm and healthredis.
--   Itestkit/Sqlrunner     itestkit/internal/sqlrunner/clickhouse.go: splitSQL as a fold of one step
--                          over the runes.
--   Itestkit/Files, Itestkit/Files/*
--                          itestkit/internal/fileutil/sqlfiles.go and collectFilesForContainer of
--                          itestkit/httpmock.go, over a file system that does not change.
--   Itestkit/Outside       the calls of the setup as events, and the little monad of a setup that
--                          stops at its first error.
--   Itestkit/Setup/*       the phases of StartStack: itestkit/migration.go, topic.go, sqlhelpers.go,
--                          the SQL and Redis helpers of cleanup.go, the expectations of httpmock.go,
--                          the init scripts of localstack.go and the runners of internal/sqlrunner;
--                          Setup/Plan and Setup/Phases have what each is to do, call by call.
--   Itestkit/Options, Itestkit/Validation, Itestkit/Names
--                          itestkit/options.go, validation.go, internal/stringutil/normalize.go;
--                          Itestkit/Environment has EnvFragment of the last, and
--                          its children ExportEnv and ApplyEnv of itestkit/env.go, with
--                          Itestkit/Environment/Variables on the variables they make. The instances' names
--                          are matched by an expression of Prelude/Regex.
--   Itestkit/Docker, Itestkit/Services, Itestkit/Stack
--                          the starters of itestkit/postgres.go, clickhouse.go, redis.go, kafka.go,
--                          localstack.go and httpmock.go, and StartStack of itestkit/stack.go, over a
--                          state that counts the containers created, lists those asked to
--                          terminate and those that Run hands back beside an error and the
--                          starters drop, and keeps the calls of the phases in order.
--   Itestkit/Config        itestkit/result.go and buildAppTestConfig of itestkit/stack.go.
--   Itestkit/Identifiers   itestkit/cleanup.go: quoteIdentifier and the statement of
--                          TruncatePostgres.
--   Itestkit/Debug         itestkit/debug.go and logger.go: the connection information, and where it is
--                          printed.
--   Itestkit/Redisjson     RedisSetJSON and RedisGetJSON of itestkit/cleanup.go.
--   Itestkit/Networks      itestkit/internal/dockerutil/names.go.
--   Fiberutil              fiber/user.go and fiber/params.go, over the user value that
--                          Middleware/Jwt sets; Fiberutil/Parsing has fiber/request.go and
--                          query_string.go, over the errors' texts of Validator
--                          (validator/validator.go).
--   Pagination, Timeutil   pagination/pagination.go and timeutil/time.go, on the 64-bit words of
--                          Prelude/Words, where sums and products wrap.
--   Nulls, Nulls/Dates     null and defaults: optional values and SQL's nullable columns.
--   Gmail                  gmail: the checks of model.go, the raw message, and its sending.
--   Aws                    aws/aws.go: the upload of a data URL.
--   Logger                 observability/logger/logger.go and logutil/struct.go.
--   Password               password/password.go.
--   Tracer                 observability/tracer/tracer.go: New, Shutdown and what New builds.
--   Finance, Finance/*     proto/finance/v1: the messages of finance.pb.go and the validators of
--                          finance.pb.validate.go; Finance/Patterns has its two patterns, as expressions
--                          of Prelude/Regex, and Finance/Rules the course of a validation.
--                          Finance/Grpc has the client and the handlers of finance_grpc.pb.go.
--   Prelude                shared names, maps as association lists, texts, Boolean tests.
--   Tests                  every theorem at a concrete input.
--
-- How the code is represented. A Go string is taken to be valid UTF-8 and is a text of code points.
-- Statuses, instants and durations are natural numbers; instants are those of the monotonic clock,
-- and the timeouts of a stack are 64-bit words, which can be negative. A
-- map is an association list with distinct keys in the order in which range visits it, so that a
-- theorem for every list holds for every order; each phase of StartStack ranges over its map of options
-- in an order of its own (Itestkit.Outside.Outside.range). Pointers to errors are values, since no operation
-- changes an AppError in place. Every loop of the source is recursion on the list that it walks; no
-- fuel is used.
--
-- Parameters. Third-party code is an argument: golang-jwt (Jwt.Library, with its documented behaviour
-- as Jwt.Laws.IsLibrary), uuid.Parse, Unicode's lower-case table beyond ASCII, fmt's printing of a
-- value, json.Marshal, the Kafka client of the health checks (Health.Kafka.Client), testcontainers-go
-- (Itestkit.Docker.Client), the file system (Itestkit.Files.FileSystem), what the databases, Redis,
-- Kafka, MockServer and a container's bash answer to a setup (Itestkit.Outside.Outside), Go's parsing
-- and formatting of dates, the rules of go-playground/validator and the parsers of Fiber, the Gmail
-- API, the AWS SDK with base64, OpenTelemetry, net/url (Itestkit.Debug.UrlLibrary), go-redis,
-- GORM, bcrypt and grpc-go (Finance.Grpc.Laws.Wire).
--
-- Not modelled: JSON encoding, logging beyond the lines' content, the deadlines of contexts, decimal,
-- each function of which is one call of a library, and the getters and the reflection tables of the
-- generated finance.pb.go.
pub mod Prelude
pub mod Errors
pub mod Web
pub mod Response
pub mod Middleware
pub mod Pagination
pub mod Timeutil
pub mod Nulls
pub mod Gmail
pub mod Aws
pub mod Validator
pub mod Tracer
pub mod Finance
pub mod Logger
pub mod Password
pub mod Ratelimit
pub mod Itestkit
pub mod Health
pub mod Jwt
pub mod Fiberutil
pub mod Tests
