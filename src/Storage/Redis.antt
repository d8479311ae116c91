-- ===== src/Storage/Redis.antt =====
-- internal/storage/redis.go: the store over a Redis client.
pub mod Values
pub mod KeyValue
pub mod Expiring
pub mod Samples
mod Tests
use throttle.Prelude.{String, List, [], ◌∷◌}
use throttle.Int.{ℤ, pos}
use throttle.Exec.{Error, wrapped, Result, ok, err, Exec, pure, or_return, ◌>>=◌}
use throttle.Storage.{Store}

-- The commands that the program puts into a pipeline.
pub data Command (F : Type 0) : Type 0 where
  incr : String → Command F
  incr_by : String → ℤ → Command F
  z_add_member : String → F → String → Command F
  expire_key : String → ℤ → Command F

-- The answer to a GET; `nil` is the client's error `redis.Nil`.
pub data Reply : Type 0 where
  found : String → Reply
  nil : Reply
  failed : Error → Reply

-- The calls of the client of go-redis; `pipeline` answers with the value of its first command, and
-- `format` is `fmt.Sprintf("%f", x)`.
pub record Client (F W : Type 0) : Type 0 where
  pub pipeline : List (Command F) → Exec W (Result ℤ)
  pub get : String → Exec W Reply
  pub set : String → String → ℤ → Exec W (Result (Unit {0}))
  pub del : String → Exec W (Result (Unit {0}))
  pub z_rem_range_by_score : String → String → String → Exec W (Result (Unit {0}))
  pub z_count : String → String → String → Exec W (Result ℤ)
  pub expire : String → ℤ → Exec W (Result (Unit {0}))
  pub ping : Exec W (Result (Unit {0}))
  pub close : Exec W (Result (Unit {0}))
  pub format : F → String

-- `if err != nil { return …, fmt.Errorf("text: %w", err) }`
abbrev or_wrapped : {A W : Type 0} → String → Result A → Exec W (Result A)
or_wrapped text (ok a) = pure (ok a)
or_wrapped text (err e) = pure (err (wrapped text e))

abbrev value_of : {W : Type 0} → Reply → Exec W (Result String)
value_of (found s) = pure (ok s)
value_of nil = pure (ok "")
value_of (failed e) = pure (err (wrapped "failed to get string key" e))

abbrev no_value : Result ℤ → Result (Unit {0})
no_value (ok n) = ok tt
no_value (err e) = err e

module _ {F W : Type 0} (client : Client F W) where
  abbrev pub increment : String → ℤ → Exec W (Result ℤ)
  increment key expiration = do
    val ← client.pipeline (incr key ∷ expire_key key expiration ∷ [])
    or_wrapped "failed to increment key" val

  abbrev pub increment_by : String → ℤ → ℤ → Exec W (Result ℤ)
  increment_by key value expiration = do
    val ← client.pipeline (incr_by key value ∷ expire_key key expiration ∷ [])
    or_wrapped "failed to increment key by value" val

  abbrev pub get : String → Exec W (Result String)
  get key = do reply ← client.get key; value_of reply

  abbrev pub set : String → String → ℤ → Exec W (Result (Unit {0}))
  set key value expiration = do
    done ← client.set key value expiration
    or_wrapped "failed to set string key" done

  abbrev pub delete : String → Exec W (Result (Unit {0}))
  delete key = do done ← client.del key; or_wrapped "failed to delete key" done

  abbrev pub z_add : String → F → String → ℤ → Exec W (Result (Unit {0}))
  z_add key score member expiration = do
    done ← client.pipeline (z_add_member key score member ∷ expire_key key expiration ∷ [])
    or_wrapped "failed to zadd" (no_value done)

  abbrev pub z_rem_range_by_score : String → F → F → Exec W (Result (Unit {0}))
  z_rem_range_by_score key lo hi = do
    done ← client.z_rem_range_by_score key (client.format lo) (client.format hi)
    or_wrapped "failed to zremrangebyscore" done

  abbrev pub z_count : String → F → F → Exec W (Result ℤ)
  z_count key lo hi = do
    count ← client.z_count key (client.format lo) (client.format hi)
    or_wrapped "failed to zcount" count

  abbrev pub expire : String → ℤ → Exec W (Result (Unit {0}))
  expire key expiration = do
    done ← client.expire key expiration
    or_wrapped "failed to expire key" done

  abbrev pub ping : Exec W (Result (Unit {0}))
  ping = do reached ← client.ping; or_wrapped "redis ping failed" reached

  abbrev pub close : Exec W (Result (Unit {0}))
  close = do done ← client.close; or_wrapped "failed to close redis connection" done

  abbrev pub redis_store : Store F W
  redis_store = record {
    increment = increment;
    increment_by = increment_by;
    get = get;
    set = set;
    delete = delete;
    z_add = z_add;
    z_rem_range_by_score = z_rem_range_by_score;
    z_count = z_count;
    expire = expire;
    ping = ping;
    close = close;
  }

-- `redis.Options`
pub record Options : Type 0 where
  pub addr : String
  pub password : String
  pub db : ℤ
  pub pool_size : ℤ

-- `NewRedisStore`, whose store is its client; `new_client` is `redis.NewClient`.
unfoldable pub new_redis_store :
    {F W : Type 0} → (Options → Client F W) → String → String → ℤ → Exec W (Result (Client F W))
new_redis_store new_client address password db = do
  let client =
      new_client (record { addr = address; password = password; db = db; pool_size = pos 10 })
  reached ← client.ping
  or_return (λ e. pure (err (wrapped "failed to connect to Redis" e))) (λ _. pure (ok client))
      reached
