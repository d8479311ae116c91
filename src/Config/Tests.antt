-- ===== src/Config/Tests.antt =====
-- A configuration, and the environment that spells it.
use throttle.Prelude.{String, ◌≡◌, ◌≢◌, refl, Option, none, some, arith, eq_iff, ap, ◌==◌, false}
use throttle.Int.{ℤ, pos}
use throttle.Exec.{Result, ok, err, message}
use throttle.Memory.Scan.{print_int, scan_int}
use throttle.Memory.Scan.RoundTrip.{scan-print}
use throttle.Config.{Config, Parsers, load}
use throttle.Config.Environment.{ReadsBack, IsSpellable, spelled, load-spelled, print_int-nonempty}

abbrev or_error : Option ℤ → Result ℤ
or_error none = err (message "invalid syntax")
or_error (some n) = ok n

-- Parsers that read plain numbers, durations too.
abbrev plain : Parsers
plain = record { atoi = λ s. or_error (scan_int s); parse_duration = λ s. or_error (scan_int s) }

plain-ReadsBack : ReadsBack plain print_int
plain-ReadsBack = record {
  ints = λ n small. ap or_error (scan-print n small);
  durations = λ d small. ap or_error (scan-print d small);
  durations_nonempty = print_int-nonempty;
}

nonempty : (s : String) → (s == "") ≡ false → s ≢ ""
nonempty s h e = ground (arith, e, eq_iff s "")

abbrev example : Config
example = record {
  http_server = record {
    host = "127.0.0.1";
    port = pos 8080;
    read_timeout = pos 1500000000;
    write_timeout = pos 1500000000;
    idle_timeout = pos 60000000000;
  };
  grpc_server = record { host = "127.0.0.1"; port = pos 50051 };
  redis = record { host = "redis"; port = pos 6379; password = ""; db = pos 1; pool_size = pos 20 };
  log = record { level = "info"; format = "json" };
}

example-IsSpellable : IsSpellable example
example-IsSpellable = record {
  http_host = nonempty "127.0.0.1" refl;
  http_port = omega arith;
  read_timeout = omega arith;
  write_timeout = omega arith;
  idle_timeout = omega arith;
  grpc_host = nonempty "127.0.0.1" refl;
  grpc_port = omega arith;
  redis_host = nonempty "redis" refl;
  redis_port = omega arith;
  redis_db = omega arith;
  log_level = nonempty "info" refl;
  log_format = nonempty "json" refl;
}

load-spelled_example :
    load plain (spelled print_int example)
    ≡ record example { redis = record example.redis { pool_size = pos 0 } }
load-spelled_example = load-spelled plain print_int plain-ReadsBack example example-IsSpellable
