-- ===== src/Config.antt =====
-- internal/config: the configuration that is read from environment variables.
pub mod Environment
pub mod Redis
mod Tests
use Prim.Native.String.{◌++◌}
use throttle.Prelude.{String, Option, none, some, ◌==◌, if◌then◌else◌, ◌*◌}
use throttle.Int.{ℤ, pos}
use throttle.Exec.{Error, wrapped, Result, ok, err}
use throttle.Time.{nanos_per_second}
use throttle.Memory.Scan.{print_int}

pub record LogConfig : Type 0 where
  pub level : String
  pub format : String

pub record HttpServerConfig : Type 0 where
  pub host : String
  pub port : ℤ
  pub read_timeout : ℤ
  pub write_timeout : ℤ
  pub idle_timeout : ℤ

pub record GrpcServerConfig : Type 0 where
  pub host : String
  pub port : ℤ

pub record RedisConfig : Type 0 where
  pub host : String
  pub port : ℤ
  pub password : String
  pub db : ℤ
  pub pool_size : ℤ

pub record Config : Type 0 where
  pub http_server : HttpServerConfig
  pub grpc_server : GrpcServerConfig
  pub redis : RedisConfig
  pub log : LogConfig

-- `os.LookupEnv`
abbrev pub Environment : Type 0
Environment = String → Option String

-- `strconv.Atoi` and `time.ParseDuration`
pub record Parsers : Type 0 where
  pub atoi : String → Result ℤ
  pub parse_duration : String → Result ℤ

-- A variable that is missing or empty gives the fallback.
abbrev value_or : {A : Type 0} → A → (String → A) → Option String → A
value_or fallback read none = fallback
value_or fallback read (some value) = if value == "" then fallback else read value

unfoldable pub get_env : Environment → String → String → String
get_env env key fallback = value_or fallback (λ value. value) (env key)

abbrev parsed_or : ℤ → Result ℤ → ℤ
parsed_or fallback (ok n) = n
parsed_or fallback (err e) = fallback

-- `10*time.Second`
abbrev pub ten_seconds : ℤ
ten_seconds = pos (10 * nanos_per_second)

module _ (parsers : Parsers) where
  unfoldable pub get_env_as_int : Environment → String → ℤ → ℤ
  get_env_as_int env key fallback =
      value_or fallback (λ value. parsed_or fallback (parsers.atoi value)) (env key)

  unfoldable pub get_env_as_duration : Environment → String → ℤ → ℤ
  get_env_as_duration env key fallback =
      value_or fallback (λ value. parsed_or fallback (parsers.parse_duration value)) (env key)

  -- The field `PoolSize` is not set, so it is zero.
  unfoldable pub load : Environment → Config
  load env = record {
    http_server = record {
      host = get_env env "APP_HTTP_HOST" "0.0.0.0";
      port = get_env_as_int env "APP_HTTP_PORT" (pos 3000);
      read_timeout = get_env_as_duration env "APP_HTTP_READ_TIMEOUT" ten_seconds;
      write_timeout = get_env_as_duration env "APP_HTTP_WRITE_TIMEOUT" ten_seconds;
      idle_timeout = get_env_as_duration env "APP_HTTP_IDLE_TIMEOUT" ten_seconds;
    };
    grpc_server = record {
      host = get_env env "APP_GRPC_HOST" "0.0.0.0";
      port = get_env_as_int env "APP_GRPC_PORT" (pos 50051);
    };
    redis = record {
      host = get_env env "REDIS_HOST" "localhost";
      port = get_env_as_int env "REDIS_PORT" (pos 6379);
      password = get_env env "REDIS_PASSWORD" "";
      db = get_env_as_int env "REDIS_DB" (pos 0);
      pool_size = pos 0;
    };
    log = record {
      level = get_env env "LOG_LEVEL" "debug";
      format = get_env env "LOG_FORMAT" "console";
    };
  }

-- `LoadDotEnv`: `exists` is whether there is a file .env, and `load_file` the environment after
-- `godotenv.Load`, whose error is only logged.
abbrev pub load_dot_env :
    Result (Unit {0}) → (Environment → Environment) → Environment → Environment
load_dot_env (ok _) load_file env = load_file env
load_dot_env (err e) load_file env = env

-- `fmt.Sprintf("%s:%d", host, port)`
unfoldable pub host_port : String → ℤ → String
host_port host port = host ++ (":" ++ print_int port)

abbrev pub redis_addr : Config → String
redis_addr c = host_port c.redis.host c.redis.port

abbrev pub http_server_addr : Config → String
http_server_addr c = host_port c.http_server.host c.http_server.port

abbrev pub grpc_server_addr : Config → String
grpc_server_addr c = host_port c.grpc_server.host c.grpc_server.port

-- `InitLogger` of logger.go, over the level's `UnmarshalText` and `zap.Config.Build`.
module _ {Level Logger : Type 0} (unmarshal_text : String → Result Level)
    (build : Level → String → Result Logger) where
  unfoldable pub init_logger : String → String → Result Logger
  init_logger level format = elim (unmarshal_text level) [
    | err e ↦ err (wrapped "invalid log level" e)
    | ok zap_level ↦ build zap_level format
  ]
