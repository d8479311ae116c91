-- ===== src/Config/Redis.antt =====
-- internal/config/redis.go, which is called nowhere.
use throttle.Prelude.{◌≡◌, refl, inl, inr, ◌↔◌, arith}
use throttle.Int.{ℤ, pos}
use throttle.Exec.{Result, ok, err, returns, Exec, pure, or_return, ◌>>=◌, Outcome-cases}
use throttle.Storage.Redis.{Client, Options, new_redis_store}
use throttle.Config.{Config, host_port, redis_addr}

-- `new_client` is `redis.NewClient`; `PoolSize` is not set.
unfoldable pub new_redis_client :
    {F W : Type 0} → (Options → Client F W) → Config → Exec W (Result (Client F W))
unfolding host_port
new_redis_client new_client cfg = do
  let client = new_client (record {
    addr = host_port cfg.redis.host cfg.redis.port;
    password = cfg.redis.password;
    db = cfg.redis.db;
    pool_size = pos 0;
  })
  reached ← client.ping
  or_return (λ e. pure (err e)) (λ _. pure (ok client)) reached

module _ {F W : Type 0} (new_client : Options → Client F W) where
  abbrev IsMade : Exec W (Result (Client F W)) → W → Type 0
  IsMade make w = (client : Client F W) × ((make w).0 ≡ returns (ok client))

  -- Where the size of the pool does not change the answer to a ping, the client is made exactly if
  -- `NewRedisStore` makes one for the same configuration.
  new_redis_client-new_redis_store :
      (cfg : Config) (w : W)
      → ((o : Options) (n : ℤ)
          → (new_client (record o { pool_size = n })).ping w ≡ (new_client o).ping w)
      → IsMade (new_redis_client new_client cfg) w
        ↔ IsMade (new_redis_store new_client (redis_addr cfg) cfg.redis.password cfg.redis.db) w
  unfolding new_redis_client new_redis_store
  new_redis_client-new_redis_store cfg w same =
      let o : Options = record {
        addr = host_port cfg.redis.host cfg.redis.port;
        password = cfg.redis.password;
        db = cfg.redis.db;
        pool_size = pos 0;
      } in
      let ping = (new_client o).ping w in
      elim (Outcome-cases ping.0) [
        | inl panicked ↦ (
          λ made. ground (arith, made.1, panicked),
          λ made. ground (arith, made.1, same o (pos 10), panicked),
        )
        | inr (err e, fails) ↦ (
          λ made. ground (arith, made.1, fails),
          λ made. ground (arith, made.1, same o (pos 10), fails),
        )
        | inr (ok x, reached) ↦ (
          λ _. (new_client (record o { pool_size = pos 10 }), rw (same o (pos 10), reached) refl),
          λ _. (new_client o, rw reached refl),
        )
      ]
