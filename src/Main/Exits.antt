-- ===== src/Main/Exits.antt =====
-- How `main` ends, and in which world.
use throttle.Prelude.{◌≡◌, refl, Option, none, some, ◌⊎◌, inl, inr, ◌↔◌, Option-cases, ap, ◌∙◌}
use throttle.Exec.{Error, Result, ok, err, wrapped, returns, panics, Result-cases, Outcome-cases}
use throttle.Int.{pos}
use throttle.Float64.{Float64}
use throttle.Storage.Redis.{Client, new_redis_store, redis_store}
use throttle.Config.{init_logger, redis_addr, grpc_server_addr}
use throttle.Transport.Grpc.Server.{start, stop}
use throttle.Transport.Http
use throttle.Main.{
  Platform, exits, panicked, waiting, main, start_up, start_servers, shut_down, loaded, http_server,
  grpc_server,
}

module _ {F W Level Logger : Type 0} (float : Float64 F) (p : Platform F W Level Logger) where
  abbrev pub client : Client F W
  client = p.new_client (record {
    addr = redis_addr (loaded p);
    password = (loaded p).redis.password;
    db = (loaded p).redis.db;
    pool_size = pos 10;
  })

  abbrev pub logger : Result Logger
  logger = init_logger p.unmarshal_text p.build (loaded p).log.level (loaded p).log.format

  -- The gRPC port is asked for after the HTTP server has been started.
  abbrev pub listening : W → Result (Unit {0}) × W
  listening w =
      p.network.listen (grpc_server_addr (loaded p))
        (p.listen_and_serve (http_server float p client) (client.ping w).1).1

  abbrev pub serving : W → W
  serving w = (p.network.serve (listening w).1).1

  -- The logger can be built, Redis answers, and the gRPC address is free.
  pub record IsReady (w : W) : Type 0 where
    pub log : (l : Logger) × (logger ≡ ok l)
    pub redis : (client.ping w).0 ≡ returns (ok tt)
    pub grpc : (listening w).0 ≡ ok tt

  -- One of them is not, and all that come before it are.
  pub data Fails (w : W) : Type 0 where
    no_logger : (e : Error) → logger ≡ err e → Fails w
    no_redis :
        (l : Logger) (e : Error) → logger ≡ ok l → (client.ping w).0 ≡ returns (err e) → Fails w
    no_port :
        (l : Logger) (e : Error)
        → logger ≡ ok l
        → (client.ping w).0 ≡ returns (ok tt)
        → (listening w).0 ≡ err e
        → Fails w

  -- The world in which the start fails.
  abbrev pub failed_in : (w : W) → Fails w → W
  failed_in w (no_logger e _) = w
  failed_in w (no_redis l e _ _) = (client.ping w).1
  failed_in w (no_port l e _ _ _) = (listening w).1

  main-Fails : (w : W) (f : Fails w) → main float p w ≡ (exits 1, failed_in w f)
  unfolding main start_up start_servers start new_redis_store Http.start
  main-Fails w (no_logger e broken) = rw broken refl
  main-Fails w (no_redis l e built refused) = rw (built, refused) refl
  main-Fails w (no_port l e built reached taken) = rw (built, reached, taken) refl

  main_crashes :
      (w : W) (l : Logger)
      → logger ≡ ok l
      → (client.ping w).0 ≡ panics
      → (main float p w).0 ≡ panicked
  unfolding main start_up new_redis_store
  main_crashes w l built crashed = rw (built, crashed) refl

  start_up_run : (w : W) → IsReady w → start_up float p w ≡ (returns (ok client), serving w)
  unfolding start_up start_servers start new_redis_store Http.start
  start_up_run w ready = rw (ready.log.1, ready.redis, ready.grpc) refl

  start_up-cases :
      (w : W)
      → Fails w ⊎ IsReady w ⊎ ((l : Logger) × (logger ≡ ok l) × ((client.ping w).0 ≡ panics))
  start_up-cases w = elim (Result-cases logger) [
    | inl (e, broken) ↦ inl (no_logger e broken)
    | inr (l, built) ↦ elim (Outcome-cases (client.ping w).0) [
      | inl crashed ↦ inr (inr (l, built, crashed))
      | inr (err e, refused) ↦ inl (no_redis l e built refused)
      | inr (ok x, reached) ↦ elim (Result-cases (listening w).0) [
        | inl (e, taken) ↦ inl (no_port l e built reached taken)
        | inr (x', free) ↦ inr (inl (record { log = (l, built); redis = reached; grpc = free }))
      ]
    ]
  ]

  main_waits :
      (w : W) → IsReady w → p.wait_for_signal (serving w) ≡ none → (main float p w).0 ≡ waiting
  unfolding main
  main_waits w ready none_comes = rw (start_up_run w ready, none_comes) refl

  wrapped_close :
      (w : W) (r : Result (Unit {0}))
      → (client.close w).0 ≡ returns r
      → (r' : Result (Unit {0})) × ((redis_store client).close w ≡ (returns r', (client.close w).1))
  wrapped_close w (ok x) e = (ok x, rw e refl)
  wrapped_close w (err x) e = (err (wrapped "failed to close redis connection" x), rw e refl)

  -- The calls that are still open when the time for a graceful stop is over are cut off.
  abbrev cut_off : Option Error → W → W
  cut_off none w = w
  cut_off (some e) w = (p.network.stop_now w).1

  -- After a signal: both servers are stopped, and then the client is closed.
  abbrev pub closed_in : W → W
  closed_in w =
      let (ended, w') = p.network.graceful_stop (p.shutdown (http_server float p client) w).1 in
      (client.close (cut_off ended w')).1

  -- Where closing the client does not panic.
  module _ (closes : (w : W) → (r : Result (Unit {0})) × ((client.close w).0 ≡ returns r)) where
    stop_returns :
        (w : W)
        → (r : Result (Unit {0})) × (stop p.network (grpc_server float p client) w
            ≡ (returns r, cut_off (p.network.graceful_stop w).0 (p.network.graceful_stop w).1))
    unfolding stop
    stop_returns w = elim (Option-cases (p.network.graceful_stop w).0) [
      | inl e ↦ (ok tt, rw e refl)
      | inr (x, e) ↦ (err x, rw e refl)
    ]

    close_returns :
        (w : W)
        → (r : Result (Unit {0})) × ((redis_store client).close w ≡ (returns r, (client.close w).1))
    close_returns w = let (r, e) = closes w in wrapped_close w r e

    shut_down_returns : (w : W) → shut_down float p client w ≡ (returns tt, closed_in w)
    unfolding shut_down Http.stop
    shut_down_returns w =
        let w' = (p.shutdown (http_server float p client) w).1 in
        let (ended, w'') = p.network.graceful_stop w' in
        rw ((stop_returns w').1, (close_returns (cut_off ended w'')).1) refl

    main_returns :
        (w w' : W)
        → IsReady w
        → p.wait_for_signal (serving w) ≡ some w'
        → main float p w ≡ (exits 0, closed_in w')
    unfolding main
    main_returns w w' ready comes = rw (start_up_run w ready, comes, shut_down_returns w') refl

    -- What happens, with how `main` ends.
    main-cases :
        (w : W)
        → ((f : Fails w) × (main float p w ≡ (exits 1, failed_in w f)))
          ⊎ (IsReady w × (p.wait_for_signal (serving w) ≡ none) × ((main float p w).0 ≡ waiting))
          ⊎ (IsReady w
              × ((w' : W) × (p.wait_for_signal (serving w) ≡ some w')
                  × (main float p w ≡ (exits 0, closed_in w'))))
          ⊎ ((main float p w).0 ≡ panicked)
    main-cases w = elim (start_up-cases w) [
      | inl f ↦ inl (f, main-Fails w f)
      | inr (inl ready) ↦ elim (Option-cases (p.wait_for_signal (serving w))) [
        | inl none_comes ↦ inr (inl (ready, none_comes, main_waits w ready none_comes))
        | inr (w', comes) ↦ inr (inr (inl (ready, (w', comes, main_returns w w' ready comes))))
      ]
      | inr (inr (l, built, crashed)) ↦ inr (inr (inr (main_crashes w l built crashed)))
    ]

    -- For a client whose Close does not panic, `main` exits with the status 1 exactly if the logger
    -- cannot be built, Redis answers the ping with an error, or the gRPC address cannot be listened on;
    -- it does so straight after that call, so that neither the HTTP server that was started is shut down
    -- nor the client is closed. It exits with the status 0 exactly if the logger can be built, Redis
    -- answers without an error, the address is free and a signal comes; both servers have then been
    -- stopped and the client closed last. It waits for ever exactly if all of these hold but the last.
    pub main_exits :
        (w w' : W)
        → ((main float p w ≡ (exits 1, w')) ↔ ((f : Fails w) × (failed_in w f ≡ w')))
          × ((main float p w ≡ (exits 0, w')) ↔ (
              IsReady w
              × ((w'' : W) × (p.wait_for_signal (serving w) ≡ some w'') × (closed_in w'' ≡ w'))))
          × (((main float p w).0 ≡ waiting) ↔ (IsReady w × (p.wait_for_signal (serving w) ≡ none)))
    main_exits w w' = (
      (
        λ h. elim (main-cases w) [
          | inl (f, e) ↦ (f, cc)
          | inr (inl (ready, none_comes, e)) ↦ absurd cc
          | inr (inr (inl (ready, (w'', comes, e)))) ↦ absurd cc
          | inr (inr (inr e)) ↦ absurd cc
        ],
        λ (f, e). main-Fails w f ∙ ap (λ v. (exits 1, v)) e,
      ),
      (
        λ h. elim (main-cases w) [
          | inl (f, e) ↦ absurd cc
          | inr (inl (ready, none_comes, e)) ↦ absurd cc
          | inr (inr (inl (ready, (w'', comes, e)))) ↦ (ready, (w'', comes, cc))
          | inr (inr (inr e)) ↦ absurd cc
        ],
        λ (ready, (w'', comes, e)). main_returns w w'' ready comes ∙ ap (λ v. (exits 0, v)) e,
      ),
      (
        λ h. elim (main-cases w) [
          | inl (f, e) ↦ absurd cc
          | inr (inl (ready, none_comes, e)) ↦ (ready, none_comes)
          | inr (inr (inl (ready, (w'', comes, e)))) ↦ absurd cc
          | inr (inr (inr e)) ↦ absurd cc
        ],
        λ (ready, none_comes). main_waits w ready none_comes,
      ),
    )
