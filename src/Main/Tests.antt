-- ===== src/Main/Tests.antt =====
-- Runs of `main`, in a world that is the list of the calls made, the last one first.
use throttle.Prelude.{String, ◌≡◌, ◌↔◌, refl, none, some, List, [], ◌∷◌, arith, ◌-◌, ◌%◌}
use throttle.Int.{ℤ, pos}
use throttle.Exec.{Result, ok, err, message, returns, Exec}
use throttle.Float64.Whole.{whole_numbers}
use throttle.Time.{nanos_per_second}
use throttle.Storage.Redis.{Client, redis_store, new_redis_store, nil}
use throttle.Config.{Config, init_logger}
use throttle.Transport.Server.{Call}
use throttle.Transport.Http.{HttpServer, new_http_server}
use throttle.Transport.Grpc.Server.{Network}
use throttle.Transport.Grpc.Server as Grpc
use throttle.Transport.Http
use throttle.Main.{Platform, exits, waiting, main, start_up, start_servers, shut_down, http_config}
use throttle.Main.Exits.{IsReady, Fails, no_port, failed_in, closed_in, serving, main_exits}
use throttle.Main.Timeouts.{CutsSeconds, http_server-timeouts}

abbrev Calls : Type 0
Calls = List String

abbrev call : {A : Type 0} → String → A → Call Calls A
call name a w = (a, name ∷ w)

abbrev run : {A : Type 0} → String → A → Exec Calls A
run name a w = (returns a, name ∷ w)

abbrev client : Client ℤ Calls
client = record {
  pipeline = λ _. run "pipeline" (ok (pos 0));
  get = λ _. run "get" nil;
  set = λ _ _ _. run "set" (ok tt);
  del = λ _. run "del" (ok tt);
  z_rem_range_by_score = λ _ _ _. run "zremrangebyscore" (ok tt);
  z_count = λ _ _ _. run "zcount" (ok (pos 0));
  expire = λ _ _. run "expire" (ok tt);
  ping = run "ping" (ok tt);
  close = run "close" (err (message "client is closed"));
  format = λ _. "0";
}

-- Nothing is set in the environment; the port is free or not.
abbrev platform : Result (Unit {0}) → Platform ℤ Calls (Unit {0}) (Unit {0})
platform port = record {
  environment = λ _. none;
  dot_env = err (message "no such file");
  load_file = λ env. env;
  parsers = record {
    atoi = λ _. err (message "invalid syntax");
    parse_duration = λ _. err (message "invalid duration");
  };
  unmarshal_text = λ _. ok tt;
  build = λ _ _. ok tt;
  new_client = λ _. client;
  listen_and_serve = λ _. call "listen and serve" tt;
  shutdown = λ _. call "shutdown" (err (message "deadline exceeded"));
  network = record {
    listen = λ _. call "listen" port;
    serve = call "serve" tt;
    graceful_stop = call "graceful stop" (some (message "deadline exceeded"));
    stop_now = call "stop" tt;
  };
  wait_for_signal = λ w. some ("signal" ∷ w);
}

abbrev port_taken : Platform ℤ Calls (Unit {0}) (Unit {0})
port_taken = platform (err (message "address already in use"))

-- The gRPC address is taken: the client is not closed.
main_exits_example :
    let w : Calls = [] in
    let w' : Calls = "listen" ∷ "listen and serve" ∷ "ping" ∷ [] in
    let p = port_taken in
    ((main whole_numbers p w ≡ (exits 1, w'))
      ↔ ((f : Fails whole_numbers p w) × (failed_in whole_numbers p w f ≡ w')))
    × ((main whole_numbers p w ≡ (exits 0, w')) ↔ (
        IsReady whole_numbers p w
        × ((w'' : Calls) × (p.wait_for_signal (serving whole_numbers p w) ≡ some w'')
            × (closed_in whole_numbers p w'' ≡ w'))))
    × (((main whole_numbers p w).0 ≡ waiting)
        ↔ (IsReady whole_numbers p w × (p.wait_for_signal (serving whole_numbers p w) ≡ none)))
main_exits_example =
    main_exits whole_numbers port_taken (λ w. (err (message "client is closed"), refl)) []
      ("listen" ∷ "listen and serve" ∷ "ping" ∷ [])

port_taken_test : Fails whole_numbers port_taken []
unfolding init_logger
port_taken_test = no_port tt (message "address already in use") refl refl refl

main_test : main whole_numbers (platform (ok tt)) [] ≡ (
  exits 0,
  "close" ∷ "stop" ∷ "graceful stop" ∷ "shutdown" ∷ "signal" ∷ "serve" ∷ "listen"
      ∷ "listen and serve" ∷ "ping" ∷ [],
)
unfolding main start_up start_servers shut_down init_logger new_redis_store Http.start Grpc.start
    Http.stop Grpc.stop
main_test = refl

main_waiting :
    (main whole_numbers (record (platform (ok tt)) { wait_for_signal = λ w. none }) []).0 ≡ waiting
unfolding main start_up start_servers init_logger new_redis_store Http.start Grpc.start
main_waiting = refl

cuts : CutsSeconds whole_numbers
cuts d small = refl

abbrev short_timeouts : Config
short_timeouts = record {
  http_server = record {
    host = "127.0.0.1";
    port = pos 8080;
    read_timeout = pos 1500000000;
    write_timeout = pos 500000000;
    idle_timeout = pos 60000000000;
  };
  grpc_server = record { host = "127.0.0.1"; port = pos 50051 };
  redis = record { host = "redis"; port = pos 6379; password = ""; db = pos 0; pool_size = pos 0 };
  log = record { level = "info"; format = "json" };
}

http_server-timeouts_example :
    let hs = new_http_server (http_config whole_numbers short_timeouts (redis_store client)) in
    (hs.read_timeout ≡ pos (1500000000 - 1500000000 % nanos_per_second))
    × (hs.write_timeout ≡ pos (500000000 - 500000000 % nanos_per_second))
    × (hs.idle_timeout ≡ pos (60000000000 - 60000000000 % nanos_per_second))
http_server-timeouts_example =
    http_server-timeouts whole_numbers cuts short_timeouts (redis_store client) 1500000000 500000000
      60000000000 refl refl refl (omega arith) (omega arith) (omega arith)
