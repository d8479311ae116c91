-- ===== src/Config/Environment.antt =====
-- The way of a configuration through the environment, and the fallbacks of config.go.
use throttle.Prelude.{
  ℕ, zero, suc, String, ◌≡◌, ◌≢◌, refl, some, inl, inr, [], ◌∷◌, arith, eq_iff, ◌/◌, ◌%◌, ltb,
  Bool-cases,
}
use Prim.Native.String.{◌∷◌ as join}
use throttle.Int.{ℤ, pos, negsuc}
use throttle.Int64.{IsInt64}
use throttle.Exec.{ok}
use throttle.Dict
use throttle.Dict.{Dict}
use throttle.Memory.Scan.{print_int, print_loop, digit, more_digits}
use throttle.Config.{
  Config, Environment, Parsers, get_env, get_env_as_int, get_env_as_duration, load, ten_seconds,
}

print_loop-nonempty : (f n : ℕ) (out : String) → print_loop f n out ≢ ""
unfolding print_loop
print_loop-nonempty zero n out = λ e. cc
print_loop-nonempty (suc f) n out = elim (Bool-cases (ltb n 10)) [
  | inl last ↦ rw last (λ e. cc)
  | inr more ↦ rw more (print_loop-nonempty f (n / 10) (join (digit (n % 10)) out))
]

pub print_int-nonempty : (n : ℤ) → print_int n ≢ ""
unfolding print_int
print_int-nonempty (pos n) = print_loop-nonempty more_digits n ""
print_int-nonempty (negsuc n) = λ e. cc

get_env-some :
    (env : Environment) (key fallback v : String)
    → env key ≡ some v
    → v ≢ ""
    → get_env env key fallback ≡ v
unfolding get_env
get_env-some env key fallback v found h = rw found (ground (arith, eq_iff v ""))

-- Where the fallback is "", an empty text is read as itself.
get_env-empty : (env : Environment) (key v : String) → env key ≡ some v → get_env env key "" ≡ v
unfolding get_env
get_env-empty env key v found = rw found (ground (arith, eq_iff v ""))

-- The environment variables that spell a configuration.
abbrev pub variables : (ℤ → String) → Config → Dict String
variables duration_text c =
    ("APP_HTTP_HOST", c.http_server.host)
    ∷ ("APP_HTTP_PORT", print_int c.http_server.port)
    ∷ ("APP_HTTP_READ_TIMEOUT", duration_text c.http_server.read_timeout)
    ∷ ("APP_HTTP_WRITE_TIMEOUT", duration_text c.http_server.write_timeout)
    ∷ ("APP_HTTP_IDLE_TIMEOUT", duration_text c.http_server.idle_timeout)
    ∷ ("APP_GRPC_HOST", c.grpc_server.host)
    ∷ ("APP_GRPC_PORT", print_int c.grpc_server.port)
    ∷ ("REDIS_HOST", c.redis.host)
    ∷ ("REDIS_PORT", print_int c.redis.port)
    ∷ ("REDIS_PASSWORD", c.redis.password)
    ∷ ("REDIS_DB", print_int c.redis.db)
    ∷ ("REDIS_POOL_SIZE", print_int c.redis.pool_size)
    ∷ ("LOG_LEVEL", c.log.level)
    ∷ ("LOG_FORMAT", c.log.format)
    ∷ []

abbrev pub spelled : (ℤ → String) → Config → Environment
spelled duration_text c key = Dict.lookup key (variables duration_text c)

-- Numbers that an `int` holds, and texts that are there; a password may be empty.
pub record IsSpellable (c : Config) : Type 0 where
  pub http_host : c.http_server.host ≢ ""
  pub http_port : IsInt64 c.http_server.port
  pub read_timeout : IsInt64 c.http_server.read_timeout
  pub write_timeout : IsInt64 c.http_server.write_timeout
  pub idle_timeout : IsInt64 c.http_server.idle_timeout
  pub grpc_host : c.grpc_server.host ≢ ""
  pub grpc_port : IsInt64 c.grpc_server.port
  pub redis_host : c.redis.host ≢ ""
  pub redis_port : IsInt64 c.redis.port
  pub redis_db : IsInt64 c.redis.db
  pub log_level : c.log.level ≢ ""
  pub log_format : c.log.format ≢ ""

module _ (parsers : Parsers) where
  get_env_as_int-some :
      (env : Environment) (key v : String) (fallback n : ℤ)
      → env key ≡ some v
      → v ≢ ""
      → parsers.atoi v ≡ ok n
      → get_env_as_int parsers env key fallback ≡ n
  unfolding get_env_as_int
  get_env_as_int-some env key v fallback n found h parsed =
      rw (found, parsed) (ground (arith, eq_iff v ""))

  get_env_as_duration-some :
      (env : Environment) (key v : String) (fallback n : ℤ)
      → env key ≡ some v
      → v ≢ ""
      → parsers.parse_duration v ≡ ok n
      → get_env_as_duration parsers env key fallback ≡ n
  unfolding get_env_as_duration
  get_env_as_duration-some env key v fallback n found h parsed =
      rw (found, parsed) (ground (arith, eq_iff v ""))

  -- The documented behaviour of the parsers: `Atoi` reads the decimal text of an int, and
  -- `ParseDuration` the text that `duration_text`, which stands for `Duration.String`, writes.
  pub record ReadsBack (duration_text : ℤ → String) : Type 0 where
    pub ints : (n : ℤ) → IsInt64 n → parsers.atoi (print_int n) ≡ ok n
    pub durations : (d : ℤ) → IsInt64 d → parsers.parse_duration (duration_text d) ≡ ok d
    pub durations_nonempty : (d : ℤ) → duration_text d ≢ ""

  module _ (duration_text : ℤ → String) (laws : ReadsBack duration_text) where
    int_back :
        (env : Environment) (key : String) (fallback n : ℤ)
        → env key ≡ some (print_int n)
        → IsInt64 n
        → get_env_as_int parsers env key fallback ≡ n
    int_back env key fallback n found small =
        get_env_as_int-some env key (print_int n) fallback n found (print_int-nonempty n)
          (laws.ints n small)

    duration_back :
        (env : Environment) (key : String) (fallback d : ℤ)
        → env key ≡ some (duration_text d)
        → IsInt64 d
        → get_env_as_duration parsers env key fallback ≡ d
    duration_back env key fallback d found small =
        get_env_as_duration-some env key (duration_text d) fallback d found
          (laws.durations_nonempty d) (laws.durations d small)

    -- Where the parsers read back what is printed, a configuration whose ports and database number fit
    -- an int, whose timeouts fit an int64, and whose texts but for the password are not empty is loaded from the variables that spell it, except for
    -- the size of the pool: it is zero, whatever its variable says.
    pub load-spelled :
        (c : Config)
        → IsSpellable c
        → load parsers (spelled duration_text c)
          ≡ record c { redis = record c.redis { pool_size = pos 0 } }
    unfolding load Dict.lookup
    load-spelled c h =
        let env = spelled duration_text c in
        rw (
          get_env-some env "APP_HTTP_HOST" "0.0.0.0" c.http_server.host refl h.http_host,
          int_back env "APP_HTTP_PORT" (pos 3000) c.http_server.port refl h.http_port,
          duration_back env "APP_HTTP_READ_TIMEOUT" ten_seconds c.http_server.read_timeout refl
              h.read_timeout,
          duration_back env "APP_HTTP_WRITE_TIMEOUT" ten_seconds c.http_server.write_timeout refl
              h.write_timeout,
          duration_back env "APP_HTTP_IDLE_TIMEOUT" ten_seconds c.http_server.idle_timeout refl
              h.idle_timeout,
          get_env-some env "APP_GRPC_HOST" "0.0.0.0" c.grpc_server.host refl h.grpc_host,
          int_back env "APP_GRPC_PORT" (pos 50051) c.grpc_server.port refl h.grpc_port,
          get_env-some env "REDIS_HOST" "localhost" c.redis.host refl h.redis_host,
          int_back env "REDIS_PORT" (pos 6379) c.redis.port refl h.redis_port,
          get_env-empty env "REDIS_PASSWORD" c.redis.password refl,
          int_back env "REDIS_DB" (pos 0) c.redis.db refl h.redis_db,
          get_env-some env "LOG_LEVEL" "debug" c.log.level refl h.log_level,
          get_env-some env "LOG_FORMAT" "console" c.log.format refl h.log_format,
        )
