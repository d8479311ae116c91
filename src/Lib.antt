-- ===== src/Lib.antt =====
-- A verification library for throttle, a rate limiter with interchangeable algorithms, stores and
-- transports. Paths are from the root of the repository.
--
-- The program. internal/limiter has four limiters behind one interface: each keeps a small state
-- as JSON under one key of a store, reads it, decides a request, and writes it back.
-- internal/storage has the interface of a store, an in-memory backend and one over Redis.
-- internal/service keeps a configuration for each client key in the store, makes a limiter for a
-- key and an algorithm on first use and keeps it in a map. internal/handler turns HTTP requests
-- into calls of the service.
--
-- The files.
-- - Limiter.antt (internal/limiter/interface.go) and its children FixedWindow, SlidingWindow,
--   LeakyBucket and TokenBucket, one for each file of internal/limiter. In each, `allow`, `reset`
--   and `close` are Allow, Reset and Close over any store, clock and codec, and the decision on a
--   state is a function of its own (`roll` and `admit`, `step`, `refill` and `consume`). Their
--   children Quota, Recent, Levels and Tokens are about runs of such decisions, and OnMemory,
--   Mirror, Runs and Enforced about runs of `allow` over the in-memory store (Requests.antt):
--   Mirror has the stored state beside that of the algorithm, and FixedWindow/Expiration is about
--   its life. FixedWindow/Counting.antt has one request over any store with expirations.
--   FixedWindow/Clients.antt cuts `allow` at its calls of the store, for
--   requests that interleave, and FixedWindow/Race.antt runs them.
-- - Storage.antt (internal/storage/interface.go), with the laws of a key-value server in
--   Storage/KeyValue.antt and those of a store with expirations in Storage/Expiring.antt.
--   Storage/Redis.antt (internal/storage/redis.go), over the client of go-redis as a parameter;
--   Storage/Redis/KeyValue.antt and Storage/Redis/Expiring.antt fill those laws. Memory.antt
--   (internal/storage/memory.go), with `%d` in Memory/Scan.antt and the order of its clock
--   readings in Memory/Readings.antt; Values, Histories and SortedSets are about what its clients
--   see, and Cleanup has the loop of the cleanup goroutine.
-- - Service.antt: Config (constants.go and ValidateConfig), Limiters (types, keys and
--   GetOrCreateLimiter) and RateLimit (the other methods) of internal/service/ratelimit.go, and
--   Health of internal/service/health.go.
--   RateLimit/Configured, Checks and Counts follow SetConfig and CheckLimit with a fixed window
--   over a store with expirations; RateLimit/Foreign, Isolation and OwnKeys, with
--   Limiter/Foreign.antt, Limiters/Others.antt and Storage/Expiring/Guarded.antt below them, are
--   about the calls for other keys.
-- - Handler.antt: RateLimit and Health, for internal/handler. RateLimit/Requests, Answers,
--   Enforced, Served and OnRedis are about a run of requests, from the HTTP handlers down to the
--   store.
-- - Transport.antt: Server, Http and Grpc, for interface.go, http.go and grpc.go of
--   internal/transport. Grpc goes from the message to the answer, Grpc/Server is the server
--   itself. The loop of Watch runs over the list of events that its select takes. Shared has the
--   two servers side by side over one store.
-- - Config.antt, for config.go and logger.go of internal/config, Config/Redis.antt, for redis.go
--   beside them, and Main.antt, for cmd/server/main.go.
-- - Exec.antt (errors, panics, early returns), Time.antt, Int64.antt, Int32.antt, Float64.antt,
--   Codec.antt and Dict.antt are the parts of Go and its packages that the program uses; Int.antt
--   and Prelude.antt are shared notation and lemmas.
--
-- State and effects. A function with effects takes the world and returns it beside its outcome, a
-- value or a panic. A store, a clock and the codecs are arguments. The in-memory store holds its
-- mutex during a whole method, so a method is one step of its world, and the cleanup goroutine is
-- a step between two of them. Each `time.Now` is one reading of a clock, which can show anything.
-- One clock stands for the wall time, which UnixNano answers, and for the monotonic time, which Go
-- compares two readings by.
--
-- Numbers. int64, int and durations are integers that wrap around modulo 2 ^ 64. Moments are
-- nanoseconds since the Unix epoch without a bound; their difference is cut to a duration as
-- time.Sub does. float64 is a parameter with the facts of IEEE 754 that a theorem needs. All
-- loops of the program range over a list or a map, so no fuel is needed.
--
-- Packages that the program calls are parameters: go-redis, zap, godotenv, net, net/http,
-- gorilla/mux, grpc, encoding/json, and of the standard library the parsers of numbers and
-- durations.
--
-- Not modelled: the handing out of a Redis client, and the generated code under proto but for the
-- fields of the messages. Contexts, log lines and the texts that encoding/json produces are left
-- out; of a codec only the round trip is used. Codec/Marks.antt is a codec for the tests, and
-- Storage/Redis/Samples.antt a Redis server.
pub mod Codec
pub mod Config
pub mod Dict
pub mod Exec
pub mod Float64
pub mod Handler
pub mod Int
pub mod Int32
pub mod Int64
pub mod Limiter
pub mod Main
pub mod Memory
pub mod Prelude
pub mod Service
pub mod Storage
pub mod Time
pub mod Transport
