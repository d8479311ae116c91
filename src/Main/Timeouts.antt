-- ===== src/Main/Timeouts.antt =====
-- The timeouts on their way from the configuration to the HTTP server.
use throttle.Prelude.{ℕ, ◌≡◌, ◌*◌, ◌-◌, ◌%◌, ◌/◌, ◌<◌, ◌^◌, arith, ap}
use throttle.Int.{ℤ, pos}
use throttle.Int64.{mul64, mul64-pos}
use throttle.Float64.{Float64}
use throttle.Time.{nanos_per_second, second}
use throttle.Storage.{Store}
use throttle.Config.{Config}
use throttle.Transport.Http.{new_http_server}
use throttle.Main.{in_seconds, http_config}

-- Durations of less than 2 ^ 22 seconds, about 48 days.
abbrev pub short : ℕ
short = 2 ^ 22 * nanos_per_second

-- What IEEE 754 says of `int(d.Seconds())` on short durations: the fraction of a second is cut off.
abbrev pub CutsSeconds : {F : Type 0} → Float64 F → Type 0
CutsSeconds float = (d : ℕ) → d < short → in_seconds float (pos d) ≡ pos (d / nanos_per_second)

module _ {F : Type 0} (float : Float64 F) (cuts : CutsSeconds float) where
  whole_seconds :
      (t : ℤ) (d : ℕ)
      → t ≡ pos d
      → d < short
      → mul64 (in_seconds float t) second ≡ pos (d - d % nanos_per_second)
  whole_seconds t d e small =
      rw (e, cuts d small, mul64-pos (d / nanos_per_second) nanos_per_second (omega arith))
        (ap pos (omega arith))

  -- Where `int(d.Seconds())` cuts off the fraction of a second of a short duration: the timeouts of
  -- the HTTP server are those of the configuration without their fraction of a second, if these are
  -- short. A timeout of less than a second is thus zero, which net/http takes for no timeout.
  pub http_server-timeouts :
      {W : Type 0} (cfg : Config) (store : Store F W) (r w i : ℕ)
      → cfg.http_server.read_timeout ≡ pos r
      → cfg.http_server.write_timeout ≡ pos w
      → cfg.http_server.idle_timeout ≡ pos i
      → r < short
      → w < short
      → i < short
      → let hs = new_http_server (http_config float cfg store) in
        (hs.read_timeout ≡ pos (r - r % nanos_per_second))
        × (hs.write_timeout ≡ pos (w - w % nanos_per_second))
        × (hs.idle_timeout ≡ pos (i - i % nanos_per_second))
  unfolding new_http_server
  http_server-timeouts cfg store r w i read write idle small_r small_w small_i = (
    whole_seconds cfg.http_server.read_timeout r read small_r,
    whole_seconds cfg.http_server.write_timeout w write small_w,
    whole_seconds cfg.http_server.idle_timeout i idle small_i,
  )
